-- ===== src/Sales/Valid.antt =====
-- The rows of an upload that validate_sales_row accepts.
use invora_api.Base.{
  ◌≡◌, refl, sym, ◌∙◌, ap, Bool, true, false, ◌||◌, pos, ◌<ℤ◌, Option, none, some, List, inl, inr,
  Bool-cases, is_some,
}
use invora_api.Text.{Text, codes, is_in}
use invora_api.Result.{Result, ok, err, bind-eq-ok, map_err}
use invora_api.Decimal.{DecimalFault}
use invora_api.Products.Sku.{normalize_sku}
use invora_api.Sales.Status.{SalesError, fault}
use invora_api.Sales.Upload.{ParsedRow}
use invora_api.Sales.Row.{
  Locale, ValidRow, Validated, valid, Checked, passed, refused, invalid_unit_price,
  invalid_total_amount, get_text, is_empty_row, parse_sale_date, parse_quantity, parse_money,
  total_of, sku_or_none, checked, validate_sales_row, accept_row, accept_known,
}
use invora_api.Sales.Accepted.{
  IsNonNegative, parse_quantity-positive, parse_money-IsNonNegative, total_of-Totals,
}

pub record Accepted (known_skus : List Text) (row : ParsedRow) (v : ValidRow) : Type 0 where
  pub numbered : v.row_number ≡ row.row_number
  pub known : is_in v.product_sku known_skus ≡ true
  pub quantity : pos 0 <ℤ v.quantity
  pub unit_price : IsNonNegative v.unit_price
  pub total_amount : IsNonNegative v.total_amount
  pub priced : is_some v.unit_price ≡ true → is_some v.total_amount ≡ true

-- A check that has passed, and what follows it.
checked-valid :
    {A : Type 0} (row : ParsedRow) (c : Checked A) (f : A → Result SalesError Validated)
    {v : ValidRow}
    → checked row c f ≡ ok (valid v)
    → (a : A) × (c ≡ passed a) × (f a ≡ ok (valid v))
checked-valid row (refused code) f h = cc
checked-valid row (passed a) f h = (a, refl, h)

map_err-ok : {A : Type 0} (r : Result DecimalFault A) (a : A) → map_err fault r ≡ ok a → r ≡ ok a
map_err-ok (ok b) a h = cc
map_err-ok (err e) a h = cc

same_row :
    {known : List Text} {row : ParsedRow} {v w : ValidRow}
    → ◌≡◌ {A = Result SalesError Validated} (ok (valid w)) (ok (valid v))
    → Accepted known row w
    → Accepted known row v
same_row {v = v} {w = w} h a = let e : w ≡ v = cc in rw (sym e) a

right_true : (a b c : Bool) → (a || b) ≡ c → b ≡ true → c ≡ true
right_true true b c h k = sym h
right_true false b c h k = sym h ∙ k

accept_row-Accepted :
    (l : Locale) (known : List Text) (sku : Text) (row : ParsedRow) (v : ValidRow)
    → is_in sku known ≡ true
    → accept_row l sku row ≡ ok (valid v)
    → Accepted known row v
unfolding accept_row
accept_row-Accepted l known sku row v in_shop h =
    let raw = row.raw_data in
    let (sale_date, _, h₁) =
      checked-valid row (parse_sale_date l (get_text (codes "sale_date") raw)) _ h in
    let quantity' = parse_quantity (get_text (codes "quantity") raw) in
    let (c₂, e₂, h₂) = bind-eq-ok (map_err fault quantity') _ h₁ in
    let (q, p₂, h₃) = checked-valid row c₂ _ h₂ in
    let price' = parse_money invalid_unit_price (get_text (codes "unit_price") raw) in
    let (c₄, e₄, h₄) = bind-eq-ok (map_err fault price') _ h₃ in
    let (price, p₄, h₅) = checked-valid row c₄ _ h₄ in
    let total' = parse_money invalid_total_amount (get_text (codes "total_amount") raw) in
    let (c₆, e₆, h₆) = bind-eq-ok (map_err fault total') _ h₅ in
    let (given, p₆, h₇) = checked-valid row c₆ _ h₆ in
    let (total, e₈, h₈) = bind-eq-ok (map_err fault (total_of q price given)) _ h₇ in
    let positive =
      parse_quantity-positive (get_text (codes "quantity") raw) q
        (map_err-ok quantity' c₂ e₂ ∙ ap ok p₂) in
    let price_ok =
      parse_money-IsNonNegative invalid_unit_price (get_text (codes "unit_price") raw) price
        (map_err-ok price' c₄ e₄ ∙ ap ok p₄) in
    let given_ok =
      parse_money-IsNonNegative invalid_total_amount (get_text (codes "total_amount") raw) given
        (map_err-ok total' c₆ e₆ ∙ ap ok p₆) in
    let (total_ok, some_total) =
      total_of-Totals q price given total given_ok (map_err-ok (total_of q price given) total e₈) in
    same_row h₈ (record {
      numbered = refl;
      known = in_shop;
      quantity = positive;
      unit_price = price_ok;
      total_amount = total_ok;
      priced = λ some_price.
          right_true (is_some given) (is_some price) (is_some total) some_total some_price;
    })

accept_known-Accepted :
    (l : Locale) (known : List Text) (row : ParsedRow) (o : Option Text) (v : ValidRow)
    → accept_known l known row o ≡ ok (valid v)
    → Accepted known row v
accept_known-Accepted l known row none v h = cc
accept_known-Accepted l known row (some sku) v h = elim (Bool-cases (is_in sku known)) [
  | inl in_shop ↦ accept_row-Accepted l known sku row v in_shop (rw in_shop at h)
  | inr unknown ↦ let k = (rw unknown at h) in cc
]

-- A row of an upload that is accepted keeps its number; its SKU is one of the known ones; its quantity is
-- positive; its price and its total are not negative where it has them, and with a price it has a total.
pub validate_sales_row-Accepted :
    (l : Locale) (known : List Text) (row : ParsedRow) (v : ValidRow)
    → validate_sales_row l known row ≡ ok (valid v)
    → Accepted known row v
unfolding validate_sales_row
validate_sales_row-Accepted l known row v h = elim (Bool-cases (is_empty_row row.raw_data)) [
  | inl blank ↦ let k = (rw blank at h) in cc
  | inr filled ↦
      accept_known-Accepted l known row
        (sku_or_none (normalize_sku l.casing (get_text (codes "product_sku") row.raw_data))) v
        (rw filled at h)
]

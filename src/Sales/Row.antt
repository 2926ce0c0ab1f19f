-- ===== src/Sales/Row.antt =====
-- app/modules/sales/domain/upload.py: one row of an upload, accepted or rejected. Quantities count
-- thousandths and money cents; a date is a number of days.
use invora_api.Base.{
  ℕ, ◌*◌, ◌^◌, Bool, true, false, ℤ, pos, pos_part, Option, none, some, List, [], ◌∷◌, all, leb,
  ltb, take, if◌then◌else◌,
}
use invora_api.Text.{Text, codes, same_text, is_in, strip, collapse}
use invora_api.Result.{Result, ok, err, map_err, ◌>>=◌}
use invora_api.Decimal.{
  Decimal, DecimalFault, invalid_operation, is_nonpositive, is_negative, exponent_below, quantize,
  parse_decimal, round_half_even,
}
use invora_api.Products.Status.{ProductError}
use invora_api.Products.Sku.{Casing, normalize_sku}
use invora_api.Sales.Status.{SalesError, fault}
use invora_api.Sales.Upload.{ParsedRow}

-- `str.upper`, and `datetime.strptime(value, format).date()`, which raises a `ValueError`.
pub record Locale : Type 0 where
  pub casing : Casing
  pub strptime : (format value : Text) → Option ℕ

pub data RejectCode : Type 0 where
  empty_row invalid_product_sku unknown_product_sku invalid_sale_date invalid_quantity : RejectCode
  invalid_unit_price invalid_total_amount : RejectCode

pub record ValidRow : Type 0 where
  pub row_number : ℕ
  pub product_sku : Text
  pub sale_date : ℕ
  pub quantity : ℤ
  pub unit_price : Option ℤ
  pub total_amount : Option ℤ
  pub customer_name : Option Text
  pub channel : Option Text
  pub notes : Option Text

pub record RejectedRow : Type 0 where
  pub row_number : ℕ
  pub raw_data : List (Text × Text)
  pub error_code : RejectCode

pub data Validated : Type 0 where
  valid : ValidRow → Validated
  rejected : RejectedRow → Validated

-- A step of the validation: its value, or the code with which the row is rejected.
pub data Checked (A : Type 0) : Type 0 where
  passed : A → Checked A
  refused : RejectCode → Checked A

-- `raw_data.get(key)`: of a key that stands twice, the last value.
abbrev pub get : Text → List (Text × Text) → Option Text
get key [] = none
get key (e ∷ es) = elim (get key es) [
  | some v ↦ some v
  | none ↦ if same_text e.0 key then some e.1 else none
]

-- `raw_data.get(key, "")`
abbrev pub get_text : Text → List (Text × Text) → Text
get_text key raw = elim (get key raw) [ none ↦ [] | some v ↦ v ]

abbrev pub is_blank : Text → Bool
is_blank [] = true
is_blank (_ ∷ _) = false

unfoldable pub is_empty_row : List (Text × Text) → Bool
unfolding strip
is_empty_row raw = all (λ e. is_blank (strip e.1)) raw

abbrev or_later : Option ℕ → Option ℕ → Option ℕ
or_later (some d) later = some d
or_later none later = later

-- The three formats in their order.
unfoldable pub parse_sale_date : Locale → Text → Checked ℕ
unfolding strip
parse_sale_date l value =
    let raw = strip value in
    let found =
      or_later (l.strptime (codes "%Y-%m-%d") raw)
        (or_later (l.strptime (codes "%d-%m-%Y") raw) (l.strptime (codes "%d/%m/%Y") raw)) in
    if is_blank raw
    then refused invalid_sale_date
    else elim found [ none ↦ refused invalid_sale_date | some d ↦ passed d ]

abbrev refuse_if :
    {A : Type 0}
    → Bool
    → RejectCode
    → Result DecimalFault (Checked A)
    → Result DecimalFault (Checked A)
refuse_if true code later = ok (refused code)
refuse_if false code later = later

-- The checks on a `Decimal`, which may raise.
unfoldable pub check_quantity : Decimal → Result DecimalFault (Checked ℤ)
check_quantity d = do
  nonpositive ← is_nonpositive d
  refuse_if nonpositive invalid_quantity (do
    fine ← exponent_below 3 d
    refuse_if fine invalid_quantity (do q ← quantize 3 d; ok (passed q)))

unfoldable pub parse_quantity : Text → Result DecimalFault (Checked ℤ)
unfolding strip check_quantity
parse_quantity value =
    if is_blank (strip value)
    then ok (refused invalid_quantity)
    else elim (parse_decimal (strip value)) [
      | none ↦ ok (refused invalid_quantity)
      | some d ↦ check_quantity d
    ]

unfoldable pub check_money : RejectCode → Decimal → Result DecimalFault (Checked (Option ℤ))
check_money code d = do
  negative ← is_negative d
  refuse_if negative code (do
    fine ← exponent_below 2 d
    refuse_if fine code (do q ← quantize 2 d; ok (passed (some q))))

-- No caller requires a value.
unfoldable pub parse_money : RejectCode → Text → Result DecimalFault (Checked (Option ℤ))
unfolding strip check_money
parse_money code value =
    if is_blank (strip value) then ok (passed none) else elim (parse_decimal (strip value)) [
      | none ↦ ok (refused code)
      | some d ↦ check_money code d
    ]

-- The cents of `n` units of 10^-5: the context rounds the product to 28 digits before `quantize` does
-- to cents.
unfoldable pub product_cents : ℕ → ℕ
unfolding round_half_even
product_cents n =
    if ltb n (10 ^ 28)
    then round_half_even n 1000
    else if ltb n (10 ^ 29)
    then round_half_even (round_half_even n 10) 100
    else if ltb n (10 ^ 30)
    then round_half_even (round_half_even n 100) 10
    else round_half_even n 1000

-- `(quantity * unit_price).quantize(Decimal("0.01"))`, for values that are not negative.
unfoldable pub amount_of : ℤ → ℤ → Result DecimalFault ℤ
unfolding product_cents
amount_of quantity unit_price =
    let cents = product_cents (pos_part quantity * pos_part unit_price) in
    if leb (10 ^ 28) cents then err invalid_operation else ok (pos cents)

-- The total of a row: its own, or quantity times price.
unfoldable pub total_of : ℤ → Option ℤ → Option ℤ → Result DecimalFault (Option ℤ)
unfolding amount_of
total_of quantity unit_price (some total) = ok (some total)
total_of quantity none none = ok none
total_of quantity (some price) none = do total ← amount_of quantity price; ok (some total)

abbrev nonblank : ℕ → Text → Option Text
nonblank max_length [] = none
nonblank max_length (c ∷ t) = some (take max_length (c ∷ t))

unfoldable pub normalize_optional_text : Option Text → ℕ → Option Text
unfolding collapse
normalize_optional_text none max_length = none
normalize_optional_text (some value) max_length = nonblank max_length (collapse value)

module _ (row : ParsedRow) where
  abbrev pub reject : RejectCode → Validated
  reject code =
      rejected (record { row_number = row.row_number; raw_data = row.raw_data; error_code = code })

  -- `isinstance(value, RejectedSalesRow)`, or what follows.
  abbrev pub checked :
      {A : Type 0} → Checked A → (A → Result SalesError Validated) → Result SalesError Validated
  checked (refused code) f = ok (reject code)
  checked (passed a) f = f a

abbrev pub sku_or_none : Result ProductError Text → Option Text
sku_or_none (ok sku) = some sku
sku_or_none (err _) = none

-- What of the validation follows the look-up of the SKU.
unfoldable pub accept_row : Locale → Text → ParsedRow → Result SalesError Validated
unfolding parse_sale_date parse_quantity parse_money total_of normalize_optional_text
accept_row l sku row =
    let raw = row.raw_data in
    checked row (parse_sale_date l (get_text (codes "sale_date") raw)) (λ sale_date. do
      quantity' ← map_err fault (parse_quantity (get_text (codes "quantity") raw))
      checked row quantity' (λ quantity. do
        price' ← map_err fault (parse_money invalid_unit_price (get_text (codes "unit_price") raw))
        checked row price' (λ unit_price. do
          total' ←
              map_err fault (parse_money invalid_total_amount (get_text (codes "total_amount") raw))
          checked row total' (λ total. do
            total_amount ← map_err fault (total_of quantity unit_price total)
            ok (
                valid (record {
                  row_number = row.row_number;
                  product_sku = sku;
                  sale_date = sale_date;
                  quantity = quantity;
                  unit_price = unit_price;
                  total_amount = total_amount;
                  customer_name = normalize_optional_text (get (codes "customer_name") raw) 255;
                  channel = normalize_optional_text (get (codes "channel") raw) 64;
                  notes = normalize_optional_text (get (codes "notes") raw) 1000;
                }))))))

abbrev pub accept_known : Locale → List Text → ParsedRow → Option Text → Result SalesError Validated
accept_known l known_skus row none = ok (reject row invalid_product_sku)
accept_known l known_skus row (some sku) =
    if is_in sku known_skus then accept_row l sku row else ok (reject row unknown_product_sku)

unfoldable pub validate_sales_row :
    Locale → (known_skus : List Text) → ParsedRow → Result SalesError Validated
unfolding is_empty_row normalize_sku accept_row
validate_sales_row l known_skus row =
    if is_empty_row row.raw_data
    then ok (reject row empty_row)
    else accept_known l known_skus row
        (sku_or_none (normalize_sku l.casing (get_text (codes "product_sku") row.raw_data)))

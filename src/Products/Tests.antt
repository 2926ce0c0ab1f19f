-- ===== src/Products/Tests.antt =====
-- The theorems on products and categories at concrete rows.
use invora_api.Base.{
  ℕ, ◌-◌, ◌≡◌, refl, true, false, ◌&&◌, none, some, [], ◌∷◌, all, map, pos, leb, arith,
  if◌then◌else◌,
}
use invora_api.Text.{Text, codes}
use invora_api.Result.{ok}
use invora_api.Exec.Keeps.{open_session, after}
use invora_api.Exec.Transaction.{commit}
use invora_api.Products.Sku.{Casing, is_sku, is_sku_char, normalize_sku}
use invora_api.Products.Canonical.{normalize_sku-canonical}
use invora_api.Products.Values.{text}
use invora_api.Products.Rows.{Category, Product, Db}
use invora_api.Products.Service.{
  get_category, ensure_category_has_no_active_products, retire_category,
}
use invora_api.Products.Unique.{IsSound}
use invora_api.Products.History.{
  History, handle_all, handle_all-IsSound, to_add_product, to_retire_category,
}
use invora_api.Products.Archive.{IsRetired, retire_category-IsRetired}

abbrev upper_char : ℕ → ℕ
upper_char c = if leb 97 c && leb c 122 then c - 32 else c

abbrev ascii_casing : Casing
ascii_casing = record { upper = map upper_char; casefold = λ t. t }

upper-sku : (t : Text) → all is_sku_char t ≡ true → ascii_casing.upper t ≡ t
upper-sku [] h = refl
upper-sku (c ∷ t) h = ground (arith, upper-sku t)

-- " ab  7." becomes "AB-7".
ab_7 : normalize_sku ascii_casing (codes " ab  7.") ≡ ok (codes "AB-7")
unfolding normalize_sku
ab_7 = refl

normalize_sku-canonical_example :
    (is_sku (codes "AB-7") ≡ true) × (normalize_sku ascii_casing (codes "AB-7") ≡ ok (codes "AB-7"))
normalize_sku-canonical_example =
    normalize_sku-canonical ascii_casing (codes " ab  7.") (codes "AB-7") upper-sku ab_7

abbrev tools : Category
tools = record {
  id = 1;
  user_id = 7;
  name = codes "Tools";
  normalized_name = codes "tools";
  description = none;
  is_active = true;
  updated_at = 0;
}

abbrev old_saw : Product
old_saw = record {
  id = 2;
  user_id = 7;
  category_id = some 1;
  name = codes "Saw";
  normalized_name = codes "saw";
  sku = codes "SAW";
  normalized_sku = codes "SAW";
  description = none;
  unit = codes "pcs";
  selling_price = pos 1000;
  cost_price = none;
  is_active = false;
  updated_at = 0;
}

abbrev workshop : Db
workshop = record { categories = tools ∷ []; products = old_saw ∷ []; next_id = 3 }

abbrev at_five : ℕ → ℕ
at_five n = 5

workshop-IsSound : IsSound workshop
workshop-IsSound = record {
  product_ids = record { once = λ i. ground arith; fresh = refl };
  category_ids = record { once = λ i. ground arith; fresh = refl };
  skus = λ u t. ground arith;
  names = λ u t. ground arith;
}

abbrev new_saw : History
new_saw =
    (
      at_five,
      7,
      to_add_product (
          (codes "name", text (codes "Saw"))
          ∷ (codes "sku", text (codes "saw"))
          ∷ (codes "unit", text (codes "pcs"))
          ∷ []),
    )
    ∷ (at_five, 7, to_retire_category 1)
    ∷ []

handle_all-IsSound_example : IsSound (handle_all ascii_casing new_saw workshop)
handle_all-IsSound_example = handle_all-IsSound ascii_casing new_saw workshop workshop-IsSound

retires :
    (retire_category 7 1 (open_session at_five workshop)).0
    ≡ ok (record tools { is_active = false; updated_at = 5 })
unfolding retire_category commit get_category ensure_category_has_no_active_products
retires = refl

retire_category-IsRetired_example : IsRetired 7 1 (after (retire_category 7 1) at_five workshop)
retire_category-IsRetired_example =
    retire_category-IsRetired 7 1 at_five workshop
      (record tools { is_active = false; updated_at = 5 }) retires

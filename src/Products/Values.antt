-- ===== src/Products/Values.antt =====
-- app/modules/products/domain/catalog.py: the values of products and categories that a request brings.
-- A `dict` is a list of its entries.
use invora_api.Base.{
  ℕ, ℤ, pos, Bool, true, false, ◌&&◌, ◌||◌, not, Option, none, some, List, [], ◌∷◌, length, ltb,
  any, if◌then◌else◌,
}
use invora_api.Text.{Text, codes, same_text, is_in, normalize, collapse}
use invora_api.Result.{Result, ok, err, reject_if, map_err, ◌>>=◌, ◌>>◌}
use invora_api.Decimal.{Decimal, is_negative, exponent_below, at_least, quantize, parse_decimal}
use invora_api.Products.Status.{
  ProductError, invalid_field, invalid_unit, invalid_sku, invalid_price, fault,
}
use invora_api.Products.Sku.{Casing, normalize_sku}
use invora_api.Products.Rows.{
  ProductValue, set_name, set_sku, set_category, set_description, set_unit, set_selling_price,
  set_cost_price, set_active, CategoryValue, set_category_name, set_category_description,
  set_category_active,
}

-- A value of a request, of the types that the schemas of the API let through.
pub data FieldValue : Type 0 where
  null : FieldValue
  text : Text → FieldValue
  number : Decimal → FieldValue
  flag : Bool → FieldValue
  ident : ℕ → FieldValue

abbrev required : ℕ → Text → Result ProductError Text
required max_length [] = err invalid_field
required max_length (c ∷ t) = do
  reject_if (ltb max_length (length (c ∷ t))) invalid_field
  ok (c ∷ t)

-- `_normalize_required_text`
unfoldable pub normalize_required_text : ℕ → FieldValue → Result ProductError Text
unfolding collapse
normalize_required_text max_length (text value) = required max_length (collapse value)
normalize_required_text max_length _ = err invalid_field

abbrev description_of : Text → Result ProductError (Option Text)
description_of [] = ok none
description_of (c ∷ t) = do reject_if (ltb 2000 (length (c ∷ t))) invalid_field; ok (some (c ∷ t))

unfoldable pub normalize_optional_description : FieldValue → Result ProductError (Option Text)
unfolding collapse
normalize_optional_description null = ok none
normalize_optional_description (text value) = description_of (collapse value)
normalize_optional_description _ = err invalid_field

-- ALLOWED_PRODUCT_UNITS
abbrev pub allowed_product_units : List Text
allowed_product_units =
    codes "pcs"
    ∷ codes "kg"
    ∷ codes "gram"
    ∷ codes "liter"
    ∷ codes "ml"
    ∷ codes "box"
    ∷ codes "packet"
    ∷ codes "dozen"
    ∷ []

unfoldable pub validate_unit : FieldValue → Result ProductError Text
unfolding normalize
validate_unit (text value) = do
  reject_if (not (is_in (normalize value) allowed_product_units)) invalid_unit
  ok (normalize value)
validate_unit _ = err invalid_unit

-- What of `validate_price` follows the parsing.
unfoldable pub check_price : Decimal → Result ProductError ℤ
check_price d = do
  negative ← map_err fault (is_negative d)
  reject_if negative invalid_price
  fine ← map_err fault (exponent_below 2 d)
  reject_if fine invalid_price
  large ← map_err fault (at_least 10_000_000_000 d)
  reject_if large invalid_price
  map_err fault (quantize 2 d)

abbrev pub parsed_price : Option Decimal → Result ProductError (Option ℤ)
parsed_price none = err invalid_price
parsed_price (some d) = do p ← check_price d; ok (some p)

-- The texts of a truth value and of an identifier are no numbers.
unfoldable pub validate_price : FieldValue → Result ProductError (Option ℤ)
unfolding check_price
validate_price null = ok none
validate_price (number d) = parsed_price (some d)
validate_price (text t) = parsed_price (parse_decimal t)
validate_price _ = err invalid_price

abbrev validate_bool : FieldValue → Result ProductError Bool
validate_bool (flag b) = ok b
validate_bool _ = err invalid_field

abbrev sku_of : Casing → FieldValue → Result ProductError Text
sku_of casing (text value) = normalize_sku casing value
sku_of casing _ = err invalid_sku

-- `price or Decimal("0.00")`
abbrev or_zero : Option ℤ → ℤ
or_zero none = pos 0
or_zero (some p) = p

-- ALLOWED_PRODUCT_FIELDS
pub data Field : Type 0 where
  name sku category_id description unit selling_price cost_price is_active : Field

unfoldable pub field_of : Text → Result ProductError Field
field_of t =
    if same_text t (codes "name")
    then ok name
    else if same_text t (codes "sku")
    then ok sku
    else if same_text t (codes "category_id")
    then ok category_id
    else if same_text t (codes "description")
    then ok description
    else if same_text t (codes "unit")
    then ok unit
    else if same_text t (codes "selling_price")
    then ok selling_price
    else if same_text t (codes "cost_price")
    then ok cost_price
    else if same_text t (codes "is_active")
    then ok is_active
    else err invalid_field

-- The schemas make a category an identifier or None; another value is refused here.
abbrev identifier : FieldValue → Result ProductError (Option ℕ)
identifier null = ok none
identifier (ident n) = ok (some n)
identifier _ = err invalid_field

abbrev pub normalize_product_value : Casing → Field → FieldValue → Result ProductError ProductValue
normalize_product_value casing name v = do
  n ← normalize_required_text 255 v
  ok (set_name n (casing.casefold n))
normalize_product_value casing sku v = do s ← sku_of casing v; ok (set_sku s)
normalize_product_value casing category_id v = do c ← identifier v; ok (set_category c)
normalize_product_value casing description v = do
  d ← normalize_optional_description v
  ok (set_description d)
normalize_product_value casing unit v = do u ← validate_unit v; ok (set_unit u)
normalize_product_value casing selling_price v = do
  p ← validate_price v
  ok (set_selling_price (or_zero p))
normalize_product_value casing cost_price v = do p ← validate_price v; ok (set_cost_price p)
normalize_product_value casing is_active v = do b ← validate_bool v; ok (set_active b)

abbrev normalize_entries :
    Casing → List (Text × FieldValue) → Result ProductError (List ProductValue)
normalize_entries casing [] = ok []
normalize_entries casing ((key, value) ∷ rest) =
    let later = normalize_entries casing rest in
    do field ← field_of key; v ← normalize_product_value casing field value; vs ← later; ok (v ∷ vs)

abbrev has_entry : Text → List (Text × FieldValue) → Bool
has_entry key values = any (λ e. same_text e.0 key) values

-- `normalized.setdefault("selling_price", Decimal("0.00"))`: the default comes first here, so that a
-- price of the request replaces it.
unfoldable pub normalize_product_values :
    Casing → Bool → List (Text × FieldValue) → Result ProductError (List ProductValue)
unfolding field_of normalize_required_text normalize_sku normalize_optional_description
    validate_unit validate_price
normalize_product_values casing true values = do
  normalized ← normalize_entries casing values
  elim normalized [ [] ↦ err invalid_field | v ∷ vs ↦ ok (v ∷ vs) ]
normalize_product_values casing false values = do
  normalized ← normalize_entries casing values
  reject_if
      (not (has_entry (codes "name") values)
        || not (has_entry (codes "sku") values)
        || not (has_entry (codes "unit") values))
      invalid_field
  ok (set_selling_price (pos 0) ∷ normalized)

-- ALLOWED_CATEGORY_FIELDS
unfoldable pub normalize_category_value :
    Casing → Text → FieldValue → Result ProductError CategoryValue
unfolding normalize_required_text normalize_optional_description
normalize_category_value casing key v =
    if same_text key (codes "name")
    then (do n ← normalize_required_text 255 v; ok (set_category_name n (casing.casefold n)))
    else if same_text key (codes "description")
    then (do d ← normalize_optional_description v; ok (set_category_description d))
    else if same_text key (codes "is_active")
    then (do b ← validate_bool v; ok (set_category_active b))
    else err invalid_field

abbrev normalize_category_entries :
    Casing → List (Text × FieldValue) → Result ProductError (List CategoryValue)
normalize_category_entries casing [] = ok []
normalize_category_entries casing ((key, value) ∷ rest) =
    let later = normalize_category_entries casing rest in
    do v ← normalize_category_value casing key value; vs ← later; ok (v ∷ vs)

unfoldable pub normalize_category_values :
    Casing → Bool → List (Text × FieldValue) → Result ProductError (List CategoryValue)
unfolding normalize_category_value
normalize_category_values casing partial values = do
  normalized ← normalize_category_entries casing values
  reject_if (not partial && not (has_entry (codes "name") values)) invalid_field
  elim normalized [ [] ↦ err invalid_field | v ∷ vs ↦ ok (v ∷ vs) ]

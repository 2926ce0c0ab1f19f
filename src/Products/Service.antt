-- ===== src/Products/Service.antt =====
-- app/modules/products/application/service.py: ProductService, its operations that change rows.
use invora_api.Base.{
  ℕ, Bool, true, false, not, Option, none, some, List, [], ◌∷◌, ltb, ◌==◌, if◌then◌else◌,
}
use invora_api.Text.{Text, same_text}
use invora_api.Exec.{pure, lift, require, try_except, raise_if, ◌>>=◌, ◌>>◌}
use invora_api.Exec.Transaction.{commit, rollback_if}
use invora_api.Products.Status.{
  is_app_error, duplicate_sku, duplicate_category, product_not_found, category_not_found,
  category_has_active_products,
}
use invora_api.Products.Sku.{Casing}
use invora_api.Products.Values.{FieldValue, normalize_product_values, normalize_category_values}
use invora_api.Products.Rows.{
  Category, Product, Action, ProductValue, set_category, set_sku, CategoryValue, set_category_name,
  set_category_active, create_product, get_product_by_id_for_user, get_product_by_sku_for_user,
  update_product, archive_product, create_category, get_category_by_id_for_user,
  get_category_by_name_for_user, update_category, archive_category,
  count_active_products_by_category,
}

-- `normalized.get(…)`: the value that is set last.
abbrev pub category_of : List ProductValue → Option (Option ℕ)
category_of [] = none
category_of (set_category c ∷ vs) = elim (category_of vs) [ none ↦ some c | some d ↦ some d ]
category_of (_ ∷ vs) = category_of vs

abbrev pub sku_of : List ProductValue → Option Text
sku_of [] = none
sku_of (set_sku t ∷ vs) = elim (sku_of vs) [ none ↦ some t | some u ↦ some u ]
sku_of (_ ∷ vs) = sku_of vs

abbrev pub name_of : List CategoryValue → Option Text
name_of [] = none
name_of (set_category_name n t ∷ vs) = elim (name_of vs) [ none ↦ some t | some u ↦ some u ]
name_of (_ ∷ vs) = name_of vs

abbrev pub active_of : List CategoryValue → Option Bool
active_of [] = none
active_of (set_category_active b ∷ vs) = elim (active_of vs) [ none ↦ some b | some c ↦ some c ]
active_of (_ ∷ vs) = active_of vs

unfoldable pub get_product : ℕ → ℕ → Action Product
unfolding get_product_by_id_for_user
get_product user id = do found ← get_product_by_id_for_user user id; require found product_not_found

unfoldable pub get_category : ℕ → ℕ → Action Category
unfolding get_category_by_id_for_user
get_category user id = do
  found ← get_category_by_id_for_user user id
  require found category_not_found

unfoldable pub ensure_category_can_be_used : ℕ → Option ℕ → Action Unit
unfolding get_category
ensure_category_can_be_used user none = pure tt
ensure_category_can_be_used user (some id) = do
  category ← get_category user id
  raise_if (not category.is_active) category_not_found

-- `existing is not None and existing.id != current`
abbrev pub is_other : Option ℕ → Option ℕ → Bool
is_other none current = false
is_other (some id) none = true
is_other (some id) (some current) = not (id == current)

abbrev product_id : Option Product → Option ℕ
product_id none = none
product_id (some p) = some p.id

abbrev category_id : Option Category → Option ℕ
category_id none = none
category_id (some c) = some c.id

unfoldable pub ensure_sku_available : ℕ → Text → Option ℕ → Action Unit
unfolding get_product_by_sku_for_user
ensure_sku_available user sku current = do
  existing ← get_product_by_sku_for_user user sku
  raise_if (is_other (product_id existing) current) duplicate_sku

unfoldable pub ensure_category_name_available : ℕ → Text → Option ℕ → Action Unit
unfolding get_category_by_name_for_user
ensure_category_name_available user name current = do
  existing ← get_category_by_name_for_user user name
  raise_if (is_other (category_id existing) current) duplicate_category

unfoldable pub ensure_category_has_no_active_products : ℕ → ℕ → Action Unit
unfolding count_active_products_by_category
ensure_category_has_no_active_products user id = do
  active_count ← count_active_products_by_category user id
  raise_if (ltb 0 active_count) category_has_active_products

-- A write with its commit, in a `try` that rolls an `AppError` back.
abbrev pub saved : {A : Type 0} → Action A → Action A
saved write = do row ← write; commit; pure row

abbrev pub stored : {A : Type 0} → Action A → Action A
stored write = try_except (saved write) (rollback_if is_app_error)

-- A check of the value of a field that the request sets.
abbrev pub when_set : {A : Type 0} → Option A → (A → Action Unit) → Action Unit
when_set none check = pure tt
when_set (some a) check = check a

-- `normalized.get("category_id")`
abbrev pub or_none : Option (Option ℕ) → Option ℕ
or_none none = none
or_none (some c) = c

abbrev pub or_empty : Option Text → Text
or_empty none = []
or_empty (some t) = t

unfoldable pub add_product : Casing → ℕ → List (Text × FieldValue) → Action Product
unfolding ensure_category_can_be_used ensure_sku_available create_product
add_product casing user values = do
  normalized ← lift (normalize_product_values casing false values)
  ensure_category_can_be_used user (or_none (category_of normalized))
  ensure_sku_available user (or_empty (sku_of normalized)) none
  stored (create_product user normalized)

abbrev pub ensure_new_sku : ℕ → Product → Text → Action Unit
ensure_new_sku user product sku =
    if same_text sku product.normalized_sku
    then pure tt
    else ensure_sku_available user sku (some product.id)

unfoldable pub change_product : Casing → ℕ → ℕ → List (Text × FieldValue) → Action Product
unfolding get_product update_product
change_product casing user id values = do
  product ← get_product user id
  normalized ← lift (normalize_product_values casing true values)
  when_set (category_of normalized) (ensure_category_can_be_used user)
  when_set (sku_of normalized) (ensure_new_sku user product)
  stored (update_product product normalized)

unfoldable pub retire_product : ℕ → ℕ → Action Product
unfolding archive_product
retire_product user id = do product ← get_product user id; stored (archive_product product)

unfoldable pub add_category : Casing → ℕ → List (Text × FieldValue) → Action Category
unfolding ensure_category_name_available create_category
add_category casing user values = do
  normalized ← lift (normalize_category_values casing false values)
  ensure_category_name_available user (or_empty (name_of normalized)) none
  stored (create_category user normalized)

abbrev pub ensure_new_name : ℕ → Category → Text → Action Unit
ensure_new_name user category name =
    if same_text name category.normalized_name
    then pure tt
    else ensure_category_name_available user name (some category.id)

abbrev pub ensure_archivable : ℕ → ℕ → Option Bool → Action Unit
ensure_archivable user id (some false) = ensure_category_has_no_active_products user id
ensure_archivable user id _ = pure tt

unfoldable pub change_category : Casing → ℕ → ℕ → List (Text × FieldValue) → Action Category
unfolding get_category update_category ensure_category_has_no_active_products
change_category casing user id values = do
  category ← get_category user id
  normalized ← lift (normalize_category_values casing true values)
  when_set (name_of normalized) (ensure_new_name user category)
  ensure_archivable user category.id (active_of normalized)
  stored (update_category category normalized)

unfoldable pub retire_category : ℕ → ℕ → Action Category
unfolding archive_category
retire_category user id = do
  category ← get_category user id
  ensure_category_has_no_active_products user category.id
  stored (archive_category category)

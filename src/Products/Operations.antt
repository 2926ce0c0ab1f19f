-- ===== src/Products/Operations.antt =====
-- The operations of ProductService keep the unique constraints.
use invora_api.Base.{ℕ, Bool, true, false, Option, none, some, List}
use invora_api.Text.{Text}
use invora_api.Exec.Keeps.{Keeps, keeping}
use invora_api.Products.Sku.{Casing}
use invora_api.Products.Values.{FieldValue}
use invora_api.Products.Rows.{
  Category, Product, Action, get_product_by_sku_for_user, get_category_by_name_for_user,
  count_active_products_by_category, get_product_by_id_for_user, get_category_by_id_for_user,
}
use invora_api.Products.Service.{
  get_product, get_category, ensure_category_can_be_used, ensure_sku_available,
  ensure_category_name_available, ensure_category_has_no_active_products, stored, when_set,
  ensure_new_sku, ensure_new_name, ensure_archivable, add_product, change_product, retire_product,
  add_category, change_category, retire_category,
}
use invora_api.Products.Unique.{IsSound}
use invora_api.Products.Writes.{
  create_product-Keeps, update_product-Keeps, archive_product-Keeps, create_category-Keeps,
  update_category-Keeps, archive_category-Keeps,
}

get_product-Keeps : (user id : ℕ) → Keeps IsSound (get_product user id)
unfolding get_product get_product_by_id_for_user
get_product-Keeps user id = search keeping

get_category-Keeps : (user id : ℕ) → Keeps IsSound (get_category user id)
unfolding get_category get_category_by_id_for_user
get_category-Keeps user id = search keeping

ensure_category-Keeps :
    (user : ℕ) (id : Option ℕ) → Keeps IsSound (ensure_category_can_be_used user id)
unfolding ensure_category_can_be_used
ensure_category-Keeps user none = search keeping
ensure_category-Keeps user (some id) = search (keeping, get_category-Keeps)

ensure_sku-Keeps :
    (user : ℕ) (sku : Text) (current : Option ℕ)
    → Keeps IsSound (ensure_sku_available user sku current)
unfolding ensure_sku_available get_product_by_sku_for_user
ensure_sku-Keeps user sku current = search keeping

ensure_name-Keeps :
    (user : ℕ) (name : Text) (current : Option ℕ)
    → Keeps IsSound (ensure_category_name_available user name current)
unfolding ensure_category_name_available get_category_by_name_for_user
ensure_name-Keeps user name current = search keeping

ensure_no_active-Keeps :
    (user id : ℕ) → Keeps IsSound (ensure_category_has_no_active_products user id)
unfolding ensure_category_has_no_active_products count_active_products_by_category
ensure_no_active-Keeps user id = search keeping

stored-Keeps : {A : Type 0} (write : Action A) → Keeps IsSound write → Keeps IsSound (stored write)
stored-Keeps write k = search keeping

when_set-Keeps :
    {A : Type 0} (o : Option A) (check : A → Action Unit)
    → ((a : A) → Keeps IsSound (check a))
    → Keeps IsSound (when_set o check)
when_set-Keeps none check k = search keeping
when_set-Keeps (some a) check k = k a

ensure_new_sku-Keeps :
    (user : ℕ) (product : Product) (sku : Text) → Keeps IsSound (ensure_new_sku user product sku)
ensure_new_sku-Keeps user product sku = search (keeping, ensure_sku-Keeps)

ensure_new_name-Keeps :
    (user : ℕ) (category : Category) (name : Text)
    → Keeps IsSound (ensure_new_name user category name)
ensure_new_name-Keeps user category name = search (keeping, ensure_name-Keeps)

ensure_archivable-Keeps :
    (user id : ℕ) (active : Option Bool) → Keeps IsSound (ensure_archivable user id active)
ensure_archivable-Keeps user id none = search keeping
ensure_archivable-Keeps user id (some true) = search keeping
ensure_archivable-Keeps user id (some false) = ensure_no_active-Keeps user id

ruleset checks = (
  get_product-Keeps, get_category-Keeps, ensure_category-Keeps, ensure_sku-Keeps, ensure_name-Keeps,
  ensure_no_active-Keeps, stored-Keeps, when_set-Keeps, ensure_new_sku-Keeps, ensure_new_name-Keeps,
  ensure_archivable-Keeps,
)

pub add_product-Keeps :
    (casing : Casing) (user : ℕ) (values : List (Text × FieldValue))
    → Keeps IsSound (add_product casing user values)
unfolding add_product
add_product-Keeps casing user values = search (keeping, checks, create_product-Keeps) depth 8

pub change_product-Keeps :
    (casing : Casing) (user id : ℕ) (values : List (Text × FieldValue))
    → Keeps IsSound (change_product casing user id values)
unfolding change_product
change_product-Keeps casing user id values = search (keeping, checks, update_product-Keeps) depth 8

pub retire_product-Keeps : (user id : ℕ) → Keeps IsSound (retire_product user id)
unfolding retire_product
retire_product-Keeps user id = search (keeping, checks, archive_product-Keeps) depth 8

pub add_category-Keeps :
    (casing : Casing) (user : ℕ) (values : List (Text × FieldValue))
    → Keeps IsSound (add_category casing user values)
unfolding add_category
add_category-Keeps casing user values = search (keeping, checks, create_category-Keeps) depth 8

pub change_category-Keeps :
    (casing : Casing) (user id : ℕ) (values : List (Text × FieldValue))
    → Keeps IsSound (change_category casing user id values)
unfolding change_category
change_category-Keeps casing user id values =
    search (keeping, checks, update_category-Keeps) depth 8

pub retire_category-Keeps : (user id : ℕ) → Keeps IsSound (retire_category user id)
unfolding retire_category
retire_category-Keeps user id = search (keeping, checks, archive_category-Keeps) depth 8

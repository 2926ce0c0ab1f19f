-- ===== src/Products/Unique.antt =====
-- The unique constraints on the SKUs and on the category names of each user, and what single writes of
-- the repository leave of them.
use invora_api.Base.{
  ℕ, ◌+◌, ◌≤◌, ◌≡◌, refl, sym, ◌∙◌, true, false, List, [], ◌∷◌, ◌++◌, map, any, count_if, arith,
  HasIds, add-HasIds, later-HasIds, replace-HasIds, replace_unique, add_unique, not_any→count_if,
}
use invora_api.Text.{Text, same_text→eq}
use invora_api.Products.Rows.{
  Category, Product, Db, ProductValue, set_name, set_sku, set_category, set_description, set_unit,
  set_selling_price, set_cost_price, set_active, set_product, set_products, CategoryValue,
  set_category_name, set_category_description, set_category_active, set_category_value,
  set_categories, has_sku, has_name, other_products, other_categories, replace_product,
  replace_category,
}

pub record IsSound (db : Db) : Type 0 where
  pub product_ids : HasIds (λ (p : Product). p.id) db.products db.next_id
  pub category_ids : HasIds (λ (c : Category). c.id) db.categories db.next_id
  pub skus : (user : ℕ) (sku : Text) → count_if (has_sku user sku) db.products ≤ 1
  pub names : (user : ℕ) (name : Text) → count_if (has_name user name) db.categories ≤ 1

-- The columns that no request sets.
set_product-keys :
    (v : ProductValue) (p : Product)
    → ((set_product v p).id ≡ p.id) × ((set_product v p).user_id ≡ p.user_id)
set_product-keys (set_name v w) p = (refl, refl)
set_product-keys (set_sku v) p = (refl, refl)
set_product-keys (set_category v) p = (refl, refl)
set_product-keys (set_description v) p = (refl, refl)
set_product-keys (set_unit v) p = (refl, refl)
set_product-keys (set_selling_price v) p = (refl, refl)
set_product-keys (set_cost_price v) p = (refl, refl)
set_product-keys (set_active v) p = (refl, refl)

pub set_products-keys :
    (vs : List ProductValue) (p : Product)
    → ((set_products vs p).id ≡ p.id) × ((set_products vs p).user_id ≡ p.user_id)
set_products-keys [] p = (refl, refl)
set_products-keys (v ∷ vs) p =
    let (a, b) = set_products-keys vs (set_product v p) in
    let (c, d) = set_product-keys v p in (a ∙ c, b ∙ d)

set_category_value-id : (v : CategoryValue) (c : Category) → (set_category_value v c).id ≡ c.id
set_category_value-id (set_category_name v w) c = refl
set_category_value-id (set_category_description v) c = refl
set_category_value-id (set_category_active v) c = refl

pub set_categories-id : (vs : List CategoryValue) (c : Category) → (set_categories vs c).id ≡ c.id
set_categories-id [] c = refl
set_categories-id (v ∷ vs) c =
    set_categories-id vs (set_category_value v c) ∙ set_category_value-id v c

-- A row whose place no row takes: no row of the key that it has, then.
sku_free :
    (p : Product) (ps : List Product)
    → any (has_sku p.user_id p.normalized_sku) ps ≡ false
    → (user : ℕ) (sku : Text) → has_sku user sku p ≡ true
    → count_if (has_sku user sku) ps ≡ 0
sku_free p ps free user sku h =
    let e = same_text→eq p.normalized_sku sku (ground arith) in
    let u : p.user_id ≡ user = ground arith in
    rw (sym e, sym u) (not_any→count_if (has_sku p.user_id p.normalized_sku) ps free)

name_free :
    (c : Category) (cs : List Category)
    → any (has_name c.user_id c.normalized_name) cs ≡ false
    → (user : ℕ) (name : Text) → has_name user name c ≡ true
    → count_if (has_name user name) cs ≡ 0
name_free c cs free user name h =
    let e = same_text→eq c.normalized_name name (ground arith) in
    let u : c.user_id ≡ user = ground arith in
    rw (sym e, sym u) (not_any→count_if (has_name c.user_id c.normalized_name) cs free)

pub product_added :
    (p : Product) (db : Db)
    → p.id ≡ db.next_id
    → any (has_sku p.user_id p.normalized_sku) db.products ≡ false
    → IsSound db
    → IsSound (record db { products = db.products ++ p ∷ []; next_id = db.next_id + 1 })
product_added p db e free h = record {
  product_ids = add-HasIds (λ q. q.id) p db.products db.next_id e h.product_ids;
  category_ids = later-HasIds (λ c. c.id) db.categories db.next_id h.category_ids;
  skus =
      λ u t. add_unique p (has_sku u t) db.products (sku_free p db.products free u t) (h.skus u t);
  names = h.names;
}

pub product_replaced :
    (p : Product) (db : Db)
    → any (has_sku p.user_id p.normalized_sku) (other_products p.id db.products) ≡ false
    → IsSound db
    → IsSound (record db { products = map (replace_product p) db.products })
product_replaced p db free h = record {
  product_ids = replace-HasIds (λ q. q.id) p db.products db.next_id h.product_ids;
  category_ids = h.category_ids;
  skus = λ u t.
      replace_unique (λ q. q.id) p (has_sku u t) db.products (h.product_ids.once p.id)
        (sku_free p (other_products p.id db.products) free u t) (h.skus u t);
  names = h.names;
}

pub category_added :
    (c : Category) (db : Db)
    → c.id ≡ db.next_id
    → any (has_name c.user_id c.normalized_name) db.categories ≡ false
    → IsSound db
    → IsSound (record db { categories = db.categories ++ c ∷ []; next_id = db.next_id + 1 })
category_added c db e free h = record {
  product_ids = later-HasIds (λ p. p.id) db.products db.next_id h.product_ids;
  category_ids = add-HasIds (λ d. d.id) c db.categories db.next_id e h.category_ids;
  skus = h.skus;
  names = λ u t.
      add_unique c (has_name u t) db.categories (name_free c db.categories free u t) (h.names u t);
}

pub category_replaced :
    (c : Category) (db : Db)
    → any (has_name c.user_id c.normalized_name) (other_categories c.id db.categories) ≡ false
    → IsSound db
    → IsSound (record db { categories = map (replace_category c) db.categories })
category_replaced c db free h = record {
  product_ids = h.product_ids;
  category_ids = replace-HasIds (λ d. d.id) c db.categories db.next_id h.category_ids;
  skus = h.skus;
  names = λ u t.
      replace_unique (λ d. d.id) c (has_name u t) db.categories (h.category_ids.once c.id)
        (name_free c (other_categories c.id db.categories) free u t) (h.names u t);
}

-- ===== src/Products/Writes.antt =====
-- The writes of ProductRepository keep the unique constraints.
use invora_api.Base.{
  ℕ, refl, ◌||◌, not, inl, inr, List, any, arith, Bool-cases, count_if-map, map-HasIds,
}
use invora_api.Exec.Transaction.{refuse}
use invora_api.Exec.Keeps.{Keeps, write-Keeps}
use invora_api.Products.Rows.{
  Category, Product, ProductValue, set_products, CategoryValue, set_categories, has_sku, has_name,
  references, blank_product, blank_category, create_product, update_product, archive_product,
  create_category, update_category, archive_category, other_products, other_categories,
  retire_product_if, retire_category_if,
}
use invora_api.Products.Unique.{
  IsSound, set_products-keys, set_categories-id, product_added, product_replaced, category_added,
  category_replaced,
}

pub create_product-Keeps :
    (user : ℕ) (vs : List ProductValue) → Keeps IsSound (create_product user vs)
unfolding create_product refuse
create_product-Keeps user vs = record {
  keeps = λ s h.
      let b = blank_product s.current.next_id user (s.clock s.reads) in
      let p = set_products vs b in
      elim (Bool-cases (
        any (has_sku p.user_id p.normalized_sku) s.current.products
        || not (references p.category_id s.current.categories))) [
          | inl refused ↦ rw refused (record { current = h.committed; committed = h.committed })
          | inr fine ↦ rw fine (record {
            current = product_added p s.current (set_products-keys vs b).0 (ground arith) h.current;
            committed = h.committed;
          })
        ];
}

pub update_product-Keeps :
    (product : Product) (vs : List ProductValue) → Keeps IsSound (update_product product vs)
unfolding update_product refuse
update_product-Keeps product vs = record {
  keeps = λ s h.
      let p : Product = record (set_products vs product) { updated_at = s.clock s.reads } in
      elim (Bool-cases (
        any (has_sku p.user_id p.normalized_sku) (other_products p.id s.current.products)
        || not (references p.category_id s.current.categories))) [
          | inl refused ↦ rw refused (record { current = h.committed; committed = h.committed })
          | inr fine ↦ rw fine (record {
            current = product_replaced p s.current (ground arith) h.current;
            committed = h.committed;
          })
        ];
}

pub archive_product-Keeps : (product : Product) → Keeps IsSound (archive_product product)
unfolding archive_product
archive_product-Keeps product =
    write-Keeps (archive_product product)
      (λ s h.
        let f = retire_product_if product.id (s.clock s.reads) in
        record {
          product_ids =
              map-HasIds (λ p. p.id) f s.current.products s.current.next_id (λ p. ground arith)
                h.product_ids;
          category_ids = h.category_ids;
          skus = λ u t.
              rw (count_if-map (has_sku u t) f s.current.products (λ p. ground arith)) (h.skus u t);
          names = h.names;
        })
      (λ s. refl)

pub create_category-Keeps :
    (user : ℕ) (vs : List CategoryValue) → Keeps IsSound (create_category user vs)
unfolding create_category refuse
create_category-Keeps user vs = record {
  keeps = λ s h.
      let b = blank_category s.current.next_id user (s.clock s.reads) in
      let c = set_categories vs b in
      elim (Bool-cases (any (has_name c.user_id c.normalized_name) s.current.categories)) [
        | inl refused ↦ rw refused (record { current = h.committed; committed = h.committed })
        | inr fine ↦ rw fine (record {
          current = category_added c s.current (set_categories-id vs b) fine h.current;
          committed = h.committed;
        })
      ];
}

pub update_category-Keeps :
    (category : Category) (vs : List CategoryValue) → Keeps IsSound (update_category category vs)
unfolding update_category refuse
update_category-Keeps category vs = record {
  keeps = λ s h.
      let c : Category = record (set_categories vs category) { updated_at = s.clock s.reads } in
      elim (Bool-cases
        (any (has_name c.user_id c.normalized_name) (other_categories c.id s.current.categories))) [
          | inl refused ↦ rw refused (record { current = h.committed; committed = h.committed })
          | inr fine ↦ rw fine (record {
            current = category_replaced c s.current fine h.current;
            committed = h.committed;
          })
        ];
}

pub archive_category-Keeps : (category : Category) → Keeps IsSound (archive_category category)
unfolding archive_category
archive_category-Keeps category =
    write-Keeps (archive_category category)
      (λ s h.
        let f = retire_category_if category.id (s.clock s.reads) in
        record {
          product_ids = h.product_ids;
          category_ids =
              map-HasIds (λ c. c.id) f s.current.categories s.current.next_id (λ c. ground arith)
                h.category_ids;
          skus = h.skus;
          names = λ u t.
              rw (count_if-map (has_name u t) f s.current.categories (λ c. ground arith))
                (h.names u t);
        })
      (λ s. refl)

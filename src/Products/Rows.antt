-- ===== src/Products/Rows.antt =====
-- The methods of ProductRepository (app/modules/products/infrastructure/repositories.py).
mod Tables
unfoldable pub use Tables.*
use invora_api.Base.{
  ℕ, ◌+◌, ℤ, pos, Bool, true, false, ◌&&◌, ◌||◌, not, Option, none, some, List, [], ◌∷◌, ◌++◌, map,
  find, any, count_if, if◌then◌else◌, ◌==◌, replace_row, other_rows,
}
use invora_api.Text.{Text, same_text}
use invora_api.Result.{ok}
use invora_api.Exec.{Exec, gets}
use invora_api.Exec.Session.{Session, tick}
use invora_api.Exec.Transaction.{refuse}
use invora_api.Products.Status.{ProductError, duplicate_sku, duplicate_category}

abbrev pub references : Option ℕ → List Category → Bool
references none cs = true
references (some id) cs = any (λ c. c.id == id) cs

-- An `IntegrityError` of the flush, be it of the unique or of the foreign key, is a duplicate SKU.
unfoldable pub create_product : ℕ → List ProductValue → Action Product
create_product user values s =
    let p = set_products values (blank_product s.current.next_id user (s.clock s.reads)) in
    if any (has_sku p.user_id p.normalized_sku) s.current.products
      || not (references p.category_id s.current.categories)
    then refuse duplicate_sku s
    else (
      ok p,
      record (tick s) {
        current = record s.current {
          products = s.current.products ++ p ∷ [];
          next_id = s.current.next_id + 1;
        };
      },
    )

unfoldable pub get_product_by_id_for_user : ℕ → ℕ → Action (Option Product)
get_product_by_id_for_user user id = gets (λ s. find (same_product user id) s.current.products)

unfoldable pub get_product_by_sku_for_user : ℕ → Text → Action (Option Product)
get_product_by_sku_for_user user sku = gets (λ s. find (has_sku user sku) s.current.products)

abbrev pub replace_product : Product → Product → Product
replace_product p q = replace_row (λ r. r.id) p q

abbrev pub other_products : ℕ → List Product → List Product
other_products id products = other_rows (λ r. r.id) id products

unfoldable pub update_product : Product → List ProductValue → Action Product
update_product product values s =
    let p = record (set_products values product) { updated_at = s.clock s.reads } in
    if any (has_sku p.user_id p.normalized_sku) (other_products p.id s.current.products)
      || not (references p.category_id s.current.categories)
    then refuse duplicate_sku (tick s)
    else (
      ok p,
      record (tick s) {
        current = record s.current { products = map (replace_product p) s.current.products };
      },
    )

-- The flush of an object writes the columns that were set on it.
abbrev pub retired_product : ℕ → Product → Product
retired_product now p = record p { is_active = false; updated_at = now }

abbrev pub retire_product_if : ℕ → ℕ → Product → Product
retire_product_if id now p = if p.id == id then retired_product now p else p

unfoldable pub archive_product : Product → Action Product
archive_product product s = (
  ok (retired_product (s.clock s.reads) product),
  record (tick s) {
    current = record s.current {
      products = map (retire_product_if product.id (s.clock s.reads)) s.current.products;
    };
  },
)

unfoldable pub create_category : ℕ → List CategoryValue → Action Category
create_category user values s =
    let c = set_categories values (blank_category s.current.next_id user (s.clock s.reads)) in
    if any (has_name c.user_id c.normalized_name) s.current.categories
    then refuse duplicate_category s
    else (
      ok c,
      record (tick s) {
        current = record s.current {
          categories = s.current.categories ++ c ∷ [];
          next_id = s.current.next_id + 1;
        };
      },
    )

unfoldable pub get_category_by_id_for_user : ℕ → ℕ → Action (Option Category)
get_category_by_id_for_user user id = gets (λ s. find (same_category user id) s.current.categories)

unfoldable pub get_category_by_name_for_user : ℕ → Text → Action (Option Category)
get_category_by_name_for_user user name = gets (λ s. find (has_name user name) s.current.categories)

abbrev pub replace_category : Category → Category → Category
replace_category c d = replace_row (λ r. r.id) c d

abbrev pub other_categories : ℕ → List Category → List Category
other_categories id categories = other_rows (λ r. r.id) id categories

unfoldable pub update_category : Category → List CategoryValue → Action Category
update_category category values s =
    let c = record (set_categories values category) { updated_at = s.clock s.reads } in
    if any (has_name c.user_id c.normalized_name) (other_categories c.id s.current.categories)
    then refuse duplicate_category (tick s)
    else (
      ok c,
      record (tick s) {
        current = record s.current { categories = map (replace_category c) s.current.categories };
      },
    )

abbrev pub retired_category : ℕ → Category → Category
retired_category now c = record c { is_active = false; updated_at = now }

abbrev pub retire_category_if : ℕ → ℕ → Category → Category
retire_category_if id now c = if c.id == id then retired_category now c else c

unfoldable pub archive_category : Category → Action Category
archive_category category s = (
  ok (retired_category (s.clock s.reads) category),
  record (tick s) {
    current = record s.current {
      categories = map (retire_category_if category.id (s.clock s.reads)) s.current.categories;
    };
  },
)

abbrev pub is_active_in : ℕ → ℕ → Product → Bool
is_active_in user id p =
    p.user_id == user && p.is_active && elim p.category_id [ none ↦ false | some c ↦ c == id ]

unfoldable pub count_active_products_by_category : ℕ → ℕ → Action ℕ
count_active_products_by_category user id =
    gets (λ s. count_if (is_active_in user id) s.current.products)

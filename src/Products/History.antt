-- ===== src/Products/History.antt =====
-- Requests to the product service, one after the other.
use invora_api.Base.{ℕ, List, [], ◌∷◌}
use invora_api.Text.{Text}
use invora_api.Exec.Keeps.{after, after-Keeps}
use invora_api.Products.Sku.{Casing}
use invora_api.Products.Values.{FieldValue}
use invora_api.Products.Rows.{Db}
use invora_api.Products.Service.{
  add_product, change_product, retire_product, add_category, change_category, retire_category,
}
use invora_api.Products.Unique.{IsSound}
use invora_api.Products.Operations.{
  add_product-Keeps, change_product-Keeps, retire_product-Keeps, add_category-Keeps,
  change_category-Keeps, retire_category-Keeps,
}

pub data Request : Type 0 where
  to_add_product : List (Text × FieldValue) → Request
  to_change_product : (product_id : ℕ) → List (Text × FieldValue) → Request
  to_retire_product : (product_id : ℕ) → Request
  to_add_category : List (Text × FieldValue) → Request
  to_change_category : (category_id : ℕ) → List (Text × FieldValue) → Request
  to_retire_category : (category_id : ℕ) → Request

-- The rows that a request of a user leaves.
abbrev pub handle : Casing → (ℕ → ℕ) → ℕ → Request → Db → Db
handle casing clock user (to_add_product values) = after (add_product casing user values) clock
handle casing clock user (to_change_product id values) =
    after (change_product casing user id values) clock
handle casing clock user (to_retire_product id) = after (retire_product user id) clock
handle casing clock user (to_add_category values) = after (add_category casing user values) clock
handle casing clock user (to_change_category id values) =
    after (change_category casing user id values) clock
handle casing clock user (to_retire_category id) = after (retire_category user id) clock

-- A history: who asks for what, with the readings of the clock while the request is served.
abbrev pub History : Type 0
History = List ((ℕ → ℕ) × ℕ × Request)

unfoldable pub handle_all : Casing → History → Db → Db
handle_all casing [] db = db
handle_all casing ((clock, user, request) ∷ later) db =
    handle_all casing later (handle casing clock user request db)

handle-IsSound :
    (casing : Casing) (clock : ℕ → ℕ) (user : ℕ) (request : Request) (db : Db)
    → IsSound db
    → IsSound (handle casing clock user request db)
handle-IsSound casing clock user (to_add_product values) db =
    after-Keeps clock db (add_product-Keeps casing user values)
handle-IsSound casing clock user (to_change_product id values) db =
    after-Keeps clock db (change_product-Keeps casing user id values)
handle-IsSound casing clock user (to_retire_product id) db =
    after-Keeps clock db (retire_product-Keeps user id)
handle-IsSound casing clock user (to_add_category values) db =
    after-Keeps clock db (add_category-Keeps casing user values)
handle-IsSound casing clock user (to_change_category id values) db =
    after-Keeps clock db (change_category-Keeps casing user id values)
handle-IsSound casing clock user (to_retire_category id) db =
    after-Keeps clock db (retire_category-Keeps user id)

-- However many requests of whichever users are served one after the other, and however each ends: no two
-- products of one user have one SKU and no two of a user's categories one normalized name afterwards,
-- and no two rows of a table one identifier, when that held before.
pub handle_all-IsSound :
    (casing : Casing) (history : History) (db : Db)
    → IsSound db
    → IsSound (handle_all casing history db)
unfolding handle_all
handle_all-IsSound casing [] db h = h
handle_all-IsSound casing ((clock, user, request) ∷ later) db h =
    handle_all-IsSound casing later (handle casing clock user request db)
      (handle-IsSound casing clock user request db h)

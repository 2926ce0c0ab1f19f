-- ===== src/Inventory/Rows.antt =====
-- The tables of app/modules/inventory/infrastructure/models.py, as lists of rows, and the methods of
-- InventoryRepository that read and write single rows. Identifiers are numbers, and the next fresh one
-- stands for `uuid4`. The columns of type Numeric(14, 3) are counts of thousandths.
use invora_api.Base.{
  ℕ, ◌+◌, ℤ, pos_part, neg_part, Bool, ◌&&◌, not, Option, List, [], ◌∷◌, ◌++◌, map, find, any,
  if◌then◌else◌, leb, ◌==◌,
}
use invora_api.Text.{Text}
use invora_api.Result.{ok, err}
use invora_api.Exec.{Exec, gets}
use invora_api.Exec.Session.{Session, committed_state, rolled_back, tick}
use invora_api.Inventory.Quantity.{InventoryError, item_already_exists, numeric_overflow}
use invora_api.Inventory.Movement.{MovementType}
use invora_api.Inventory.Bounds.{max_units}

pub record Product : Type 0 where
  pub id : ℕ
  pub user_id : ℕ

pub record Item : Type 0 where
  pub id : ℕ
  pub user_id : ℕ
  pub product_id : ℕ
  pub current_stock : ℤ
  pub minimum_stock : ℤ
  pub safety_stock : ℤ
  pub is_active : Bool
  pub updated_at : ℕ

pub record Movement : Type 0 where
  pub user_id : ℕ
  pub product_id : ℕ
  pub inventory_item_id : ℕ
  pub movement_type : MovementType
  pub quantity_delta : ℤ
  pub quantity_before : ℤ
  pub quantity_after : ℤ
  pub reason : Option Text
  pub reference_type : Option Text
  pub reference_id : Option Text
  pub occurred_at : ℕ

pub record Db : Type 0 where
  pub products : List Product
  pub items : List Item
  pub movements : List Movement
  pub next_id : ℕ

abbrev pub Action : Type 0 → Type 0
Action A = Exec (Session Db) InventoryError A

-- A value that a column of type Numeric(14, 3) holds.
abbrev pub fits_column : ℤ → Bool
fits_column z = not (leb max_units (pos_part z)) && not (leb max_units (neg_part z))

abbrev pub item_fits : Item → Bool
item_fits i =
    fits_column i.current_stock && fits_column i.minimum_stock && fits_column i.safety_stock

abbrev pub movement_fits : Movement → Bool
movement_fits m =
    fits_column m.quantity_delta && fits_column m.quantity_before && fits_column m.quantity_after

unfoldable pub utc_now : Action ℕ
utc_now s = (ok (s.clock s.reads), tick s)

unfoldable pub commit : Action Unit
commit s = (ok tt, committed_state s)

unfoldable pub rollback : Action Unit
rollback s = (ok tt, rolled_back s)

-- A flush that the database refuses ends the transaction.
abbrev pub refused : {A : Type 0} → InventoryError → Action A
refused e s = (err e, rolled_back s)

unfoldable pub get_product_for_user : ℕ → ℕ → Action (Option Product)
get_product_for_user user_id product_id =
    gets (λ s. find (λ p. p.id == product_id && p.user_id == user_id) s.current.products)

abbrev pub is_item_of : ℕ → ℕ → Item → Bool
is_item_of user_id product_id i = i.user_id == user_id && i.product_id == product_id

-- The lock that `for_update` asks for is not modelled: a request runs by itself.
unfoldable pub get_inventory_item_by_product_for_user : ℕ → ℕ → Action (Option Item)
get_inventory_item_by_product_for_user user_id product_id =
    gets (λ s. find (is_item_of user_id product_id) s.current.items)

abbrev pub add_item : Item → Db → Db
add_item i db = record db { items = db.items ++ i ∷ []; next_id = db.next_id + 1 }

-- The values of a new row, but its identifier.
pub record ItemValues : Type 0 where
  pub current_stock : ℤ
  pub minimum_stock : ℤ
  pub safety_stock : ℤ
  pub is_active : Bool

-- The constraint on (user_id, product_id) makes the flush fail, which the repository reports.
unfoldable pub create_inventory_item : ℕ → ℕ → ItemValues → Action Item
create_inventory_item user_id product_id v s =
    let i : Item = record {
      id = s.current.next_id;
      user_id = user_id;
      product_id = product_id;
      current_stock = v.current_stock;
      minimum_stock = v.minimum_stock;
      safety_stock = v.safety_stock;
      is_active = v.is_active;
      updated_at = s.clock s.reads;
    } in
    if any (is_item_of user_id product_id) s.current.items
    then refused item_already_exists s
    else if item_fits i
    then (ok i, record (tick s) { current = add_item i s.current })
    else refused numeric_overflow s

-- A field that `update_inventory_item` sets.
pub data ItemUpdate : Type 0 where
  set_current_stock set_minimum_stock set_safety_stock : ℤ → ItemUpdate
  set_is_active : Bool → ItemUpdate

abbrev pub set_field : ItemUpdate → Item → Item
set_field (set_current_stock z) i = record i { current_stock = z }
set_field (set_minimum_stock z) i = record i { minimum_stock = z }
set_field (set_safety_stock z) i = record i { safety_stock = z }
set_field (set_is_active b) i = record i { is_active = b }

abbrev pub set_fields : List ItemUpdate → Item → Item
set_fields [] i = i
set_fields (u ∷ us) i = set_fields us (set_field u i)

abbrev pub replace_item : Item → Item → Item
replace_item new i = if i.id == new.id then new else i

unfoldable pub update_inventory_item : Item → List ItemUpdate → Action Item
update_inventory_item i updates s =
    let new = record (set_fields updates i) { updated_at = s.clock s.reads } in
    if item_fits new
    then (
      ok new,
      record (tick s) {
        current = record s.current { items = map (replace_item new) s.current.items };
      },
    )
    else refused numeric_overflow (tick s)

unfoldable pub create_stock_movement : Movement → Action Movement
create_stock_movement m s =
    if movement_fits m
    then (
      ok m,
      record s { current = record s.current { movements = s.current.movements ++ m ∷ [] } },
    )
    else refused numeric_overflow s

-- ===== src/Inventory/Writes.antt =====
-- What the methods of the repository, each by itself, do to the open transaction and to the commit.
use invora_api.Base.{ℕ, ◌≡◌, Option, none, some, List, find, arith, any, false}
use invora_api.Result.{ok, err}
use invora_api.Exec.Session.{Session}
use invora_api.Inventory.Quantity.{InventoryError, item_not_found, product_not_found}
use invora_api.Inventory.Rows.{
  Item, ItemValues, ItemUpdate, Movement, Product, Db, set_fields, update_inventory_item,
  create_stock_movement, create_inventory_item, add_item, utc_now, is_item_of,
}
use invora_api.Inventory.Balanced.{with_item, with_movement}
use invora_api.Inventory.Service.{or_now, get_product, get_item}

-- The rows of two sessions are the same.
pub record SameRows (s t : Session Db) : Type 0 where
  pub current : t.current ≡ s.current
  pub committed : t.committed ≡ s.committed

-- The second session has gone back to the last commit of the first.
pub record Reverted (s t : Session Db) : Type 0 where
  pub current : t.current ≡ s.committed
  pub committed : t.committed ≡ s.committed

module _ (i : Item) (us : List ItemUpdate) (s s' : Session Db) where
  pub update_ok :
      {new : Item}
      → update_inventory_item i us s ≡ (ok new, s')
      → (s'.current ≡ with_item new s.current)
        × (s'.committed ≡ s.committed)
        × (new ≡ record (set_fields us i) { updated_at = s.clock s.reads })
  unfolding update_inventory_item
  update_ok e = ground arith

  pub update_err : {x : InventoryError} → update_inventory_item i us s ≡ (err x, s') → Reverted s s'
  unfolding update_inventory_item
  update_err e = ground arith

module _ (m : Movement) (s s' : Session Db) where
  pub movement_ok :
      {n : Movement}
      → create_stock_movement m s ≡ (ok n, s')
      → (s'.current ≡ with_movement m s.current) × (s'.committed ≡ s.committed) × (n ≡ m)
  unfolding create_stock_movement
  movement_ok e = ground arith

  pub movement_err : {x : InventoryError} → create_stock_movement m s ≡ (err x, s') → Reverted s s'
  unfolding create_stock_movement
  movement_err e = ground arith

module _ (user product : ℕ) (v : ItemValues) (s s' : Session Db) where
  pub create_ok :
      {i : Item}
      → create_inventory_item user product v s ≡ (ok i, s')
      → (s'.current ≡ add_item i s.current)
        × (s'.committed ≡ s.committed)
        × (i.id ≡ s.current.next_id)
        × (i.current_stock ≡ v.current_stock)
        × (any (is_item_of user product) s.current.items ≡ false)
  unfolding create_inventory_item
  create_ok e = ground arith

  pub create_err :
      {x : InventoryError} → create_inventory_item user product v s ≡ (err x, s') → Reverted s s'
  unfolding create_inventory_item
  create_err e = ground arith

pub or_now_ok :
    (t : Option ℕ) (s s' : Session Db) {now : ℕ} → or_now t s ≡ (ok now, s') → SameRows s s'
unfolding utc_now
or_now_ok none s s' e = ground arith
or_now_ok (some t) s s' e = ground arith

pub or_now_err :
    (t : Option ℕ) (s s' : Session Db) {x : InventoryError}
    → or_now t s ≡ (err x, s')
    → Reverted s s'
unfolding utc_now
or_now_err none s s' e = ground arith
or_now_err (some t) s s' e = ground arith

module _ (user product : ℕ) (s s' : Session Db) where
  -- A query changes nothing, whether it finds a row or the service raises.
  pub get_product_ok : {p : Product} → get_product user product s ≡ (ok p, s') → s' ≡ s
  unfolding get_product
  get_product_ok e = ground arith

  pub get_product_err :
      {x : InventoryError}
      → get_product user product s ≡ (err x, s')
      → (s' ≡ s) × (x ≡ product_not_found)
  unfolding get_product
  get_product_err e = ground arith

  pub get_item_ok :
      {i : Item}
      → get_item user product s ≡ (ok i, s')
      → (s' ≡ s) × (find (is_item_of user product) s.current.items ≡ some i)
  unfolding get_item
  get_item_ok e = ground arith

  pub get_item_err :
      {x : InventoryError} → get_item user product s ≡ (err x, s') → (s' ≡ s) × (x ≡ item_not_found)
  unfolding get_item
  get_item_err e = ground arith

-- ===== src/Inventory/Service.antt =====
-- app/modules/inventory/application/service.py: the operations of InventoryService that read or change
-- an item. A request opens a session on the committed rows; what it does not commit is gone.
use invora_api.Base.{ℕ, ℤ, pos, Option, none, some, List, [], ◌∷◌, ltb_ℤ, is_some, if◌then◌else◌}
use invora_api.Text.{Text, codes}
use invora_api.Exec.{pure, raise, lift, require, try_except, raise_if, ◌>>=◌, ◌>>◌}
use invora_api.Exec.Session.{Session}
use invora_api.Inventory.Quantity.{
  InventoryError, item_already_exists, item_not_found, product_not_found, is_app_error, RawQuantity,
}
use invora_api.Inventory.Movement.{
  MovementType, opening_stock, movement_name, validate_public_movement_type, calculate_movement,
}
use invora_api.Inventory.Rows.{
  Product, Item, Movement, Db, Action, ItemValues, ItemUpdate, set_current_stock, utc_now, commit,
  rollback, get_product_for_user, get_inventory_item_by_product_for_user, create_inventory_item,
  update_inventory_item, create_stock_movement,
}
use invora_api.Inventory.Values.{
  FieldValue, CreateValues, normalize_item_create_values, normalize_item_update_values,
  normalize_optional_text,
}

unfoldable pub get_product : ℕ → ℕ → Action Product
unfolding get_product_for_user
get_product user_id product_id = do
  product ← get_product_for_user user_id product_id
  require product product_not_found

unfoldable pub get_item : ℕ → ℕ → Action Item
unfolding get_inventory_item_by_product_for_user
get_item user_id product_id = do
  item ← get_inventory_item_by_product_for_user user_id product_id
  require item item_not_found

-- `except AppError: rollback; raise`
abbrev pub rollback_app_error : {A : Type 0} → InventoryError → Action A
rollback_app_error e = if is_app_error e then rollback >> raise e else raise e

-- `value or utc_now()`
abbrev pub or_now : Option ℕ → Action ℕ
or_now none = utc_now
or_now (some t) = pure t

-- `value or "Opening stock"`, for a text that may be empty.
abbrev or_opening : Option Text → Option Text
or_opening none = some (codes "Opening stock")
or_opening (some []) = some (codes "Opening stock")
or_opening (some (c ∷ t)) = some (c ∷ t)

unfoldable pub opening_row : ℕ → ℕ → CreateValues → Item → ℕ → Movement
opening_row user_id product_id values item now = record {
  user_id = user_id;
  product_id = product_id;
  inventory_item_id = item.id;
  movement_type = opening_stock;
  quantity_delta = item.current_stock;
  quantity_before = pos 0;
  quantity_after = item.current_stock;
  reason = or_opening values.reason;
  reference_type = values.reference_type;
  reference_id = values.reference_id;
  occurred_at = now;
}

-- The movement that accounts for the opening stock, if there is any.
unfoldable pub record_opening : ℕ → ℕ → CreateValues → Item → Action Unit
unfolding opening_row
record_opening user_id product_id values item =
    if ltb_ℤ (pos 0) item.current_stock
    then (do
      now ← or_now values.occurred_at
      create_stock_movement (opening_row user_id product_id values item now)
      pure tt)
    else pure tt

-- The `try` block of `create_inventory_item`.
unfoldable pub store_item : ℕ → ℕ → CreateValues → ItemValues → Action Item
unfolding record_opening
store_item user_id product_id values normalized = do
  item ← create_inventory_item user_id product_id normalized
  record_opening user_id product_id values item
  commit
  pure item

unfoldable pub create_item : ℕ → ℕ → CreateValues → Action Item
unfolding store_item
create_item user_id product_id values = do
  get_product user_id product_id
  existing ← get_inventory_item_by_product_for_user user_id product_id
  raise_if (is_some existing) item_already_exists
  normalized ← lift (normalize_item_create_values values)
  try_except (store_item user_id product_id values normalized) rollback_app_error

unfoldable pub get_inventory_item : ℕ → ℕ → Action Item
get_inventory_item user_id product_id =
    get_product user_id product_id >> get_item user_id product_id

-- The `try` block of `update_inventory_thresholds`.
unfoldable pub store_thresholds : Item → List ItemUpdate → Action Item
store_thresholds item normalized = do
  updated ← update_inventory_item item normalized
  commit
  pure updated

unfoldable pub update_inventory_thresholds : ℕ → ℕ → List (Text × FieldValue) → Action Item
unfolding store_thresholds
update_inventory_thresholds user_id product_id values = do
  get_product user_id product_id
  item ← get_item user_id product_id
  normalized ← lift (normalize_item_update_values values)
  try_except (store_thresholds item normalized) rollback_app_error

-- The request for a movement.
pub record MovementRequest : Type 0 where
  pub type_text : Text
  pub quantity : RawQuantity
  pub reason : Option Text
  pub reference_type : Option Text
  pub reference_id : Option Text
  pub occurred_at : Option ℕ

-- The row that the ledger keeps of a movement.
unfoldable pub movement_row : ℕ → ℕ → MovementRequest → MovementType → Item → ℤ → ℤ → ℕ → Movement
unfolding normalize_optional_text
movement_row user_id product_id r m item delta after now = record {
  user_id = user_id;
  product_id = product_id;
  inventory_item_id = item.id;
  movement_type = m;
  quantity_delta = delta;
  quantity_before = item.current_stock;
  quantity_after = after;
  reason = normalize_optional_text r.reason;
  reference_type = normalize_optional_text r.reference_type;
  reference_id = normalize_optional_text r.reference_id;
  occurred_at = now;
}

-- The `try` block of `create_stock_movement`.
unfoldable pub store_movement :
    ℕ → ℕ → MovementRequest → MovementType → Item → ℤ × ℤ → Action Movement
unfolding movement_row
store_movement user_id product_id r m item (delta, after) = do
  update_inventory_item item (set_current_stock after ∷ [])
  now ← or_now r.occurred_at
  movement ← create_stock_movement (movement_row user_id product_id r m item delta after now)
  commit
  pure movement

unfoldable pub move_stock : ℕ → ℕ → MovementRequest → Action Movement
unfolding store_movement
move_stock user_id product_id r = do
  get_product user_id product_id
  m ← lift (validate_public_movement_type r.type_text)
  item ← get_item user_id product_id
  effect ← lift (calculate_movement (movement_name m) item.current_stock r.quantity)
  try_except (store_movement user_id product_id r m item effect) rollback_app_error

-- A request of a client to the service. A read is none: it changes nothing.
pub data Request : Type 0 where
  create : ℕ → ℕ → CreateValues → Request
  thresholds : ℕ → ℕ → List (Text × FieldValue) → Request
  movement : ℕ → ℕ → MovementRequest → Request

-- The session of the request opens on the committed rows, and only its commit outlives it.
abbrev pub open_session : (ℕ → ℕ) → Db → Session Db
open_session clock db = record { current = db; committed = db; clock = clock; reads = 0 }

unfoldable pub handle : (ℕ → ℕ) → Request → Db → Db
handle clock (create user product values) db =
    ((create_item user product values (open_session clock db)).1).committed
handle clock (thresholds user product values) db =
    ((update_inventory_thresholds user product values (open_session clock db)).1).committed
handle clock (movement user product r) db =
    ((move_stock user product r (open_session clock db)).1).committed

-- A history of requests, each with the clock that it saw.
unfoldable pub serve : List ((ℕ → ℕ) × Request) → Db → Db
unfolding handle
serve [] db = db
serve ((clock, r) ∷ rest) db = serve rest (handle clock r db)

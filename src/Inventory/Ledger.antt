-- ===== src/Inventory/Ledger.antt =====
-- The movement ledger over every history of requests to the inventory service.
use invora_api.Base.{ℕ, List, [], ◌∷◌}
use invora_api.Inventory.Rows.{Db}
use invora_api.Inventory.Accounting.{IsBalanced}
use invora_api.Inventory.Service.{
  Request, create, thresholds, movement, open_session, handle, serve,
}
use invora_api.Inventory.Steps.{move_stock-Sound, update_inventory_thresholds-Sound}
use invora_api.Inventory.Opening.{create_item-Sound}

-- Every request, accepted or refused, takes balanced rows to balanced rows.
pub handle-IsBalanced :
    (clock : ℕ → ℕ) (r : Request) (db : Db) → IsBalanced db → IsBalanced (handle clock r db)
unfolding handle
handle-IsBalanced clock (create user product v) db b =
    (create_item-Sound user product v (open_session clock db)
      (record { current = b; committed = b })).committed
handle-IsBalanced clock (thresholds user product values) db b =
    (update_inventory_thresholds-Sound user product values (open_session clock db)
      (record { current = b; committed = b })).committed
handle-IsBalanced clock (movement user product r) db b =
    (move_stock-Sound user product r (open_session clock db)
      (record { current = b; committed = b })).committed

-- From balanced rows, after any history of requests to create items, to change their thresholds and
-- to move stock, each of them accepted or refused, the committed rows are balanced: the changes that
-- the movements of an item record add up to its current stock, which is not negative.
pub serve-IsBalanced :
    (requests : List ((ℕ → ℕ) × Request)) (db : Db) → IsBalanced db → IsBalanced (serve requests db)
unfolding serve
serve-IsBalanced [] db b = b
serve-IsBalanced ((clock, r) ∷ rest) db b =
    serve-IsBalanced rest (handle clock r db) (handle-IsBalanced clock r db b)

-- ===== src/Inventory/Movement.antt =====
-- app/modules/inventory/domain/stock.py: movement types, the effect of a movement on the stock, and
-- the status of a stock.
use invora_api.Base.{
  ℤ, pos, ◌+ℤ◌, ◌-ℤ◌, neg, leb_ℤ, ltb_ℤ, eq_ℤ, Bool, Option, none, some, not, if◌then◌else◌,
}
use invora_api.Result.{Result, ok, err, ◌>>=◌, ◌>>◌, reject_if}
use invora_api.Text.{Text, codes, same_text, normalize}
use invora_api.Decimal.{of_milli}
use invora_api.Inventory.Quantity.{
  InventoryError, invalid_movement_type, invalid_stock_quantity, insufficient_stock, RawQuantity,
  decimal, normalize_stock_quantity, normalize_signed_quantity, normalize_threshold,
}

pub data MovementType : Type 0 where
  opening_stock stock_in stock_out adjustment correction : MovementType

abbrev pub movement_name : MovementType → Text
movement_name opening_stock = codes "opening_stock"
movement_name stock_in = codes "stock_in"
movement_name stock_out = codes "stock_out"
movement_name adjustment = codes "adjustment"
movement_name correction = codes "correction"

-- The member of ALLOWED_MOVEMENT_TYPES that a normalized text is.
unfoldable pub movement_type : Text → Option MovementType
movement_type t =
    if same_text t (codes "opening_stock")
    then some opening_stock
    else if same_text t (codes "stock_in")
    then some stock_in
    else if same_text t (codes "stock_out")
    then some stock_out
    else if same_text t (codes "adjustment")
    then some adjustment
    else if same_text t (codes "correction")
    then some correction
    else none

unfoldable pub validate_internal_movement_type : Text → Result InventoryError MovementType
unfolding movement_type normalize
validate_internal_movement_type value = elim (movement_type (normalize value)) [
  | none ↦ err invalid_movement_type
  | some m ↦ ok m
]

abbrev public_type : Option MovementType → Result InventoryError MovementType
public_type none = err invalid_movement_type
public_type (some opening_stock) = err invalid_movement_type
public_type (some m) = ok m

unfoldable pub validate_public_movement_type : Text → Result InventoryError MovementType
unfolding movement_type normalize
validate_public_movement_type value = public_type (movement_type (normalize value))

-- The branches of `calculate_movement` on the movement type: the change and the new stock.
unfoldable pub movement_effect : MovementType → ℤ → RawQuantity → Result InventoryError (ℤ × ℤ)
movement_effect opening_stock current quantity = do
  q ← normalize_stock_quantity quantity
  reject_if (leb_ℤ q (pos 0)) invalid_stock_quantity
  ok (q, current +ℤ q)
movement_effect stock_in current quantity = do
  q ← normalize_stock_quantity quantity
  reject_if (leb_ℤ q (pos 0)) invalid_stock_quantity
  ok (q, current +ℤ q)
movement_effect stock_out current quantity = do
  q ← normalize_stock_quantity quantity
  reject_if (leb_ℤ q (pos 0)) invalid_stock_quantity
  ok (neg q, current +ℤ neg q)
movement_effect adjustment current quantity = do
  after ← normalize_stock_quantity quantity
  ok (after -ℤ current, after)
movement_effect correction current quantity = do
  delta ← normalize_signed_quantity quantity
  ok (delta, current +ℤ delta)

-- Both results are thousandths already, and far below 28 digits, so the last `quantize` keeps them.
unfoldable pub calculate_movement : Text → ℤ → RawQuantity → Result InventoryError (ℤ × ℤ)
unfolding movement_effect validate_internal_movement_type
calculate_movement type_text current_stock quantity = do
  m ← validate_internal_movement_type type_text
  current ← normalize_stock_quantity (decimal (of_milli current_stock))
  effect ← movement_effect m current quantity
  reject_if (ltb_ℤ effect.1 (pos 0)) insufficient_stock
  ok effect

pub data StockStatus : Type 0 where
  in_stock low_stock out_of_stock inactive : StockStatus

unfoldable pub calculate_stock_status : ℤ → ℤ → Bool → Result InventoryError StockStatus
calculate_stock_status current_stock minimum_stock is_active = do
  current ← normalize_stock_quantity (decimal (of_milli current_stock))
  minimum ← normalize_threshold (decimal (of_milli minimum_stock))
  ok (
      if not is_active
      then inactive
      else if eq_ℤ current (pos 0)
      then out_of_stock
      else if leb_ℤ current minimum
      then low_stock
      else in_stock)

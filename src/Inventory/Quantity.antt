-- ===== src/Inventory/Quantity.antt =====
-- app/modules/inventory/domain/stock.py: the quantities that a request brings. A quantity is a count
-- of thousandths once it is normalized, since `quantize` fixes the exponent at -3.
use invora_api.Base.{ℕ, ℤ, Bool, true, false, none, some}
use invora_api.Result.{Result, ok, err, ◌>>=◌, ◌>>◌, reject_if, map_err}
use invora_api.Text.{Text}
use invora_api.Decimal.{
  Decimal, DecimalFault, is_negative, is_zero, exponent_below, at_least, magnitude_at_least,
  quantize, parse_decimal,
}

-- The exceptions of app/modules/inventory/domain/exceptions.py, by class, and those that no handler
-- of the module catches: faults of `Decimal`, and a number out of the range of its column.
pub data InventoryError : Type 0 where
  item_already_exists item_not_found product_not_found : InventoryError
  invalid_movement_type invalid_stock_quantity insufficient_stock : InventoryError
  invalid_threshold invalid_field invalid_sort_field : InventoryError
  fault : DecimalFault → InventoryError
  numeric_overflow : InventoryError

-- `isinstance(exc, AppError)`
abbrev pub is_app_error : InventoryError → Bool
is_app_error (fault _) = false
is_app_error numeric_overflow = false
is_app_error _ = true

-- Decimal | int | str | None; a whole number stands for itself as a `Decimal`.
pub data RawQuantity : Type 0 where
  missing : RawQuantity
  decimal : Decimal → RawQuantity
  text : Text → RawQuantity

abbrev pub max_stock_quantity : ℕ
max_stock_quantity = 100_000_000_000

-- `if value is None: raise`, and `Decimal(str(value))` with its handler.
unfoldable pub to_decimal : RawQuantity → Result InventoryError Decimal
to_decimal missing = err invalid_stock_quantity
to_decimal (decimal d) = ok d
to_decimal (text t) = elim (parse_decimal t) [ none ↦ err invalid_stock_quantity | some d ↦ ok d ]

-- What of `normalize_stock_quantity` follows the parsing.
unfoldable pub check_stock_quantity : Decimal → Result InventoryError ℤ
check_stock_quantity d = do
  negative ← map_err fault (is_negative d)
  reject_if negative invalid_stock_quantity
  fine ← map_err fault (exponent_below 3 d)
  reject_if fine invalid_stock_quantity
  large ← map_err fault (at_least max_stock_quantity d)
  reject_if large invalid_stock_quantity
  map_err fault (quantize 3 d)

unfoldable pub normalize_stock_quantity : RawQuantity → Result InventoryError ℤ
unfolding to_decimal check_stock_quantity
normalize_stock_quantity value = do d ← to_decimal value; check_stock_quantity d

unfoldable pub check_signed_quantity : Decimal → Result InventoryError ℤ
check_signed_quantity d = do
  reject_if (is_zero d) invalid_stock_quantity
  fine ← map_err fault (exponent_below 3 d)
  reject_if fine invalid_stock_quantity
  large ← map_err fault (magnitude_at_least max_stock_quantity d)
  reject_if large invalid_stock_quantity
  map_err fault (quantize 3 d)

unfoldable pub normalize_signed_quantity : RawQuantity → Result InventoryError ℤ
unfolding to_decimal check_signed_quantity
normalize_signed_quantity value = do d ← to_decimal value; check_signed_quantity d

-- `except InvalidStockQuantityError`
abbrev as_threshold_error : InventoryError → InventoryError
as_threshold_error invalid_stock_quantity = invalid_threshold
as_threshold_error e = e

unfoldable pub normalize_threshold : RawQuantity → Result InventoryError ℤ
unfolding normalize_stock_quantity
normalize_threshold value = map_err as_threshold_error (normalize_stock_quantity value)

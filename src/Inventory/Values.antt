-- ===== src/Inventory/Values.antt =====
-- app/modules/inventory/domain/stock.py: the values of a request that creates or changes an item. A
-- `dict` is a list of its entries, and a key that is absent has no entry.
use invora_api.Base.{ℕ, pos, Bool, true, false, Option, none, some, List, [], ◌∷◌, if◌then◌else◌}
use invora_api.Result.{Result, ok, err, ◌>>=◌}
use invora_api.Text.{Text, codes, same_text, nonempty, collapse}
use invora_api.Inventory.Quantity.{
  InventoryError, invalid_field, RawQuantity, decimal, text, normalize_stock_quantity,
  normalize_threshold,
}
use invora_api.Decimal.{of_milli}
use invora_api.Inventory.Rows.{
  ItemValues, ItemUpdate, set_minimum_stock, set_safety_stock, set_is_active,
}

-- A value of such a `dict`: a quantity, or a truth value.
pub data FieldValue : Type 0 where
  quantity : RawQuantity → FieldValue
  flag : Bool → FieldValue

-- The argument of `Decimal(str(value))`; `str(True)` is the text "True".
abbrev as_quantity : FieldValue → RawQuantity
as_quantity (quantity q) = q
as_quantity (flag true) = text (codes "True")
as_quantity (flag false) = text (codes "False")

-- `isinstance(value, bool)`
abbrev as_flag : FieldValue → Result InventoryError Bool
as_flag (quantity _) = err invalid_field
as_flag (flag b) = ok b

-- The request to create an item: `none` for a key that is absent.
pub record CreateValues : Type 0 where
  pub opening_stock : Option RawQuantity
  pub minimum_stock : Option RawQuantity
  pub safety_stock : Option RawQuantity
  pub is_active : Option FieldValue
  pub reason : Option Text
  pub reference_type : Option Text
  pub reference_id : Option Text
  pub occurred_at : Option ℕ

-- `values.get(key, Decimal("0"))`
abbrev pub or_zero : Option RawQuantity → RawQuantity
or_zero none = decimal (of_milli (pos 0))
or_zero (some q) = q

-- `values.get("is_active", True)`
abbrev or_true : Option FieldValue → FieldValue
or_true none = flag true
or_true (some v) = v

-- The new stock is `current_stock` here, the name under which the service stores it.
unfoldable pub normalize_item_create_values : CreateValues → Result InventoryError ItemValues
normalize_item_create_values values = do
  opening ← normalize_stock_quantity (or_zero values.opening_stock)
  minimum ← normalize_threshold (or_zero values.minimum_stock)
  safety ← normalize_threshold (or_zero values.safety_stock)
  active ← as_flag (or_true values.is_active)
  ok (record {
    current_stock = opening;
    minimum_stock = minimum;
    safety_stock = safety;
    is_active = active;
  })

abbrev pub normalize_field : Text → FieldValue → Result InventoryError ItemUpdate
normalize_field field value =
    if same_text field (codes "minimum_stock")
    then (do z ← normalize_threshold (as_quantity value); ok (set_minimum_stock z))
    else if same_text field (codes "safety_stock")
    then (do z ← normalize_threshold (as_quantity value); ok (set_safety_stock z))
    else if same_text field (codes "is_active")
    then (do b ← as_flag value; ok (set_is_active b))
    else err invalid_field

unfoldable pub normalize_fields : List (Text × FieldValue) → Result InventoryError (List ItemUpdate)
normalize_fields [] = ok []
normalize_fields ((field, value) ∷ rest) =
    let later = normalize_fields rest in do u ← normalize_field field value; us ← later; ok (u ∷ us)

abbrev some_field : List ItemUpdate → Result InventoryError (List ItemUpdate)
some_field [] = err invalid_field
some_field (u ∷ us) = ok (u ∷ us)

unfoldable pub normalize_item_update_values :
    List (Text × FieldValue) → Result InventoryError (List ItemUpdate)
unfolding normalize_fields
normalize_item_update_values values = do us ← normalize_fields values; some_field us

unfoldable pub normalize_optional_text : Option Text → Option Text
unfolding collapse
normalize_optional_text none = none
normalize_optional_text (some t) = nonempty (collapse t)

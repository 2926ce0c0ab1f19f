-- ===== src/Inventory/Tests.antt =====
-- The theorems on the inventory at concrete requests and quantities.
use invora_api.Base.{
  ℕ, pos, negsuc, neg, ◌≡◌, ◌≢◌, ◌≤ℤ◌, ◌<ℤ◌, ◌+ℤ◌, refl, none, some, List, [], ◌∷◌, arith,
}
use invora_api.Text.{codes, normalize}
use invora_api.Decimal.{parse_decimal, is_negative, exponent_below, at_least, quantize}
use invora_api.Result.{ok}
use invora_api.Inventory.Quantity.{RawQuantity, text, normalize_stock_quantity}
use invora_api.Inventory.Movement.{
  opening_stock, stock_in, stock_out, movement_name, calculate_movement,
  validate_internal_movement_type, validate_public_movement_type,
}
use invora_api.Inventory.Bounds.{max_units, normalize_stock_quantity-bounds}
use invora_api.Inventory.Effects.{
  calculate_movement-balance, stock_in_then_out, validate_public-internal,
}
use invora_api.Inventory.Rows.{Db}
use invora_api.Inventory.Service.{Request, create, movement, serve}
use invora_api.Inventory.Accounting.{IsBalanced}
use invora_api.Inventory.Ledger.{serve-IsBalanced}

abbrev two_and_a_half : RawQuantity
two_and_a_half = text (codes "2.5")

two_and_a_half_ok : normalize_stock_quantity two_and_a_half ≡ ok (pos 2500)
unfolding normalize_stock_quantity parse_decimal normalize is_negative exponent_below at_least
    quantize
two_and_a_half_ok = refl

withdrawal :
    calculate_movement (codes "stock_out") (pos 6000) two_and_a_half ≡ ok (negsuc 2499, pos 3500)
unfolding calculate_movement normalize_stock_quantity is_negative exponent_below at_least quantize
    parse_decimal ◌+ℤ◌ neg
withdrawal = refl

stock_out_public : validate_public_movement_type (codes " Stock_Out") ≡ ok stock_out
unfolding validate_public_movement_type
stock_out_public = refl

-- A database of one product, without an item.
abbrev one_product : Db
one_product = record {
  products = record { id = 1; user_id = 7 } ∷ [];
  items = [];
  movements = [];
  next_id = 2;
}

-- An item with an opening stock, and a withdrawal from it.
abbrev two_requests : List ((ℕ → ℕ) × Request)
two_requests =
    (
      λ n. n,
      create 7 1 (record {
        opening_stock = some (text (codes "6"));
        minimum_stock = none;
        safety_stock = none;
        is_active = none;
        reason = none;
        reference_type = none;
        reference_id = none;
        occurred_at = none;
      }),
    )
    ∷ (
      λ n. n,
      movement 7 1 (record {
        type_text = codes "stock_out";
        quantity = two_and_a_half;
        reason = none;
        reference_type = none;
        reference_id = none;
        occurred_at = none;
      }),
    )
    ∷ []

serve-IsBalanced_example : IsBalanced (serve two_requests one_product)
serve-IsBalanced_example =
    serve-IsBalanced two_requests one_product (record { items = tt; movements = tt })

calculate_movement-balance_example : (pos 3500 ≡ pos 6000 +ℤ negsuc 2499) × (pos 0 ≤ℤ pos 3500)
calculate_movement-balance_example =
    calculate_movement-balance (codes "stock_out") (pos 6000) two_and_a_half (negsuc 2499)
      (pos 3500) withdrawal

stock_in_then_out_example :
    (calculate_movement (movement_name stock_in) (pos 1000) two_and_a_half
      ≡ ok (pos 2500, pos 3500))
    × (calculate_movement (movement_name stock_out) (pos 3500) two_and_a_half
        ≡ ok (neg (pos 2500), pos 1000))
stock_in_then_out_example =
    stock_in_then_out 1000 two_and_a_half 2500 (omega arith) two_and_a_half_ok (omega arith)

normalize_stock_quantity-bounds_example : (pos 0 ≤ℤ pos 2500) × (pos 2500 <ℤ pos max_units)
normalize_stock_quantity-bounds_example =
    normalize_stock_quantity-bounds two_and_a_half (pos 2500) two_and_a_half_ok

validate_public-internal_example :
    (validate_internal_movement_type (codes " Stock_Out") ≡ ok stock_out)
    × (stock_out ≢ opening_stock)
validate_public-internal_example =
    validate_public-internal (codes " Stock_Out") stock_out stock_out_public

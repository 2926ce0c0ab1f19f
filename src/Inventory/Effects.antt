-- ===== src/Inventory/Effects.antt =====
-- The effect of a stock movement: what `calculate_movement` of app/modules/inventory/domain/stock.py
-- promises for every type, and where it refuses.
use invora_api.Base.{
  ℕ, ◌+◌, ◌-◌, ◌<◌, ◌≡◌, ◌≢◌, refl, ◌∙◌, ℤ, pos, ◌+ℤ◌, ◌-ℤ◌, neg, ◌≤ℤ◌, ltb, arith, false,
  eq_of_parts, +ℤ_parts, -ℤ_parts, if◌then◌else◌,
}
use invora_api.Result.{ok, err, bind-eq-ok}
use invora_api.Text.{Text}
use invora_api.Decimal.{of_milli}
use invora_api.Inventory.Quantity.{
  insufficient_stock, RawQuantity, decimal, normalize_stock_quantity,
}
use invora_api.Inventory.Bounds.{
  max_units, check_stock_quantity-of_milli, check_stock_quantity-stored,
}
use invora_api.Inventory.Movement.{
  MovementType, opening_stock, stock_in, stock_out, adjustment, correction, movement_name,
  movement_type, validate_internal_movement_type, validate_public_movement_type, movement_effect,
  calculate_movement,
}

-- The name of a type is read as that type.
pub validate_internal_movement_type-movement_name :
    (m : MovementType) → validate_internal_movement_type (movement_name m) ≡ ok m
unfolding validate_internal_movement_type
validate_internal_movement_type-movement_name opening_stock = refl
validate_internal_movement_type-movement_name stock_in = refl
validate_internal_movement_type-movement_name stock_out = refl
validate_internal_movement_type-movement_name adjustment = refl
validate_internal_movement_type-movement_name correction = refl

-- A text accepted from a client is accepted within, as the same type, which is never `opening_stock`.
pub validate_public-internal :
    (t : Text) (m : MovementType)
    → validate_public_movement_type t ≡ ok m
    → (validate_internal_movement_type t ≡ ok m) × (m ≢ opening_stock)
unfolding validate_public_movement_type validate_internal_movement_type movement_type
validate_public-internal t m h = ground arith

stored : (z : ℤ) {c : ℤ} → normalize_stock_quantity (decimal (of_milli z)) ≡ ok c → c ≡ z
unfolding normalize_stock_quantity
stored z {c} h = (check_stock_quantity-stored z c h).0

pub stored_ok :
    (n : ℕ) → n < max_units → normalize_stock_quantity (decimal (of_milli (pos n))) ≡ ok (pos n)
unfolding normalize_stock_quantity
stored_ok n h = check_stock_quantity-of_milli n h

-- The change and the new stock of a movement agree, whatever its type.
movement_effect-balance :
    (m : MovementType) (current : ℤ) (v : RawQuantity) (delta after : ℤ)
    → movement_effect m current v ≡ ok (delta, after)
    → after ≡ current +ℤ delta
unfolding movement_effect
movement_effect-balance opening_stock current v delta after h = ground arith
movement_effect-balance stock_in current v delta after h = ground arith
movement_effect-balance stock_out current v delta after h = ground arith
movement_effect-balance adjustment current v delta after h = ground (
  arith,
  eq_of_parts after (current +ℤ (after -ℤ current)),
  +ℤ_parts current (after -ℤ current),
  -ℤ_parts after current,
)
movement_effect-balance correction current v delta after h = ground arith

-- A movement that is accepted changes the stock by its delta, and never to below zero.
pub calculate_movement-balance :
    (t : Text) (current : ℤ) (v : RawQuantity) (delta after : ℤ)
    → calculate_movement t current v ≡ ok (delta, after)
    → (after ≡ current +ℤ delta) × (pos 0 ≤ℤ after)
unfolding calculate_movement
calculate_movement-balance t current v delta after h =
    let (m, e₁, h₁) = bind-eq-ok (validate_internal_movement_type t) _ h in
    let (c, e₂, h₂) = bind-eq-ok (normalize_stock_quantity (decimal (of_milli current))) _ h₁ in
    let (effect, e₃, h₃) = bind-eq-ok (movement_effect m c v) _ h₂ in
    ground (arith, stored current e₂, movement_effect-balance m c v effect.0 effect.1 e₃)

module _ (t : Text) (n : ℕ) (v : RawQuantity) (q : ℕ) (fits : n < max_units)
    (amount : normalize_stock_quantity v ≡ ok (pos q)) where
  -- A withdrawal of a positive amount succeeds exactly when the stock covers it.
  pub calculate_movement-stock_out :
      validate_internal_movement_type t ≡ ok stock_out
      → 0 < q
      → calculate_movement t (pos n) v
        ≡ (if ltb n q then err insufficient_stock else ok (neg (pos q), pos (n - q)))
  unfolding calculate_movement movement_effect ◌+ℤ◌ neg
  calculate_movement-stock_out is_out positive =
      rw is_out (rw (stored_ok n fits) (rw amount (ground arith)))

  -- Stock that comes in is added, without a limit on the sum.
  pub calculate_movement-stock_in :
      validate_internal_movement_type t ≡ ok stock_in
      → 0 < q
      → calculate_movement t (pos n) v ≡ ok (pos q, pos (n + q))
  unfolding calculate_movement movement_effect ◌+ℤ◌
  calculate_movement-stock_in is_in positive =
      rw is_in (rw (stored_ok n fits) (rw amount (ground arith)))

  -- An adjustment sets the stock, whatever it was.
  pub calculate_movement-adjustment :
      validate_internal_movement_type t ≡ ok adjustment
      → calculate_movement t (pos n) v ≡ ok (pos q -ℤ pos n, pos q)
  unfolding calculate_movement movement_effect
  calculate_movement-adjustment is_adjustment =
      rw is_adjustment (rw (stored_ok n fits) (rw amount (ground arith)))

-- Where the stock with the amount is still in range, stock that comes in and goes out again by the
-- same positive amount leaves what there was, and the two changes are opposite.
pub stock_in_then_out :
    (n : ℕ) (v : RawQuantity) (q : ℕ)
    → n + q < max_units
    → normalize_stock_quantity v ≡ ok (pos q)
    → 0 < q
    → (calculate_movement (movement_name stock_in) (pos n) v ≡ ok (pos q, pos (n + q)))
      × (calculate_movement (movement_name stock_out) (pos (n + q)) v ≡ ok (neg (pos q), pos n))
stock_in_then_out n v q fits amount positive =
    let not_short : ltb (n + q) q ≡ false = ground arith in
    let back : n + q - q ≡ n = omega arith in
    (
      calculate_movement-stock_in (movement_name stock_in) n v q (omega arith) amount
          (validate_internal_movement_type-movement_name stock_in) positive,
      calculate_movement-stock_out (movement_name stock_out) (n + q) v q fits amount
            (validate_internal_movement_type-movement_name stock_out) positive
          ∙ rw (not_short, back) refl,
    )

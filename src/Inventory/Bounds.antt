-- ===== src/Inventory/Bounds.antt =====
-- What the normalization of quantities in app/modules/inventory/domain/stock.py accepts and returns.
use native.Mathlib.Nat.{pow-suc}
use native.Mathlib.Numerals.{towards_suc}
use invora_api.Base.{
  ℕ, zero, suc, ◌*◌, ◌^◌, ◌<◌, ◌≡◌, refl, Bool, true, false, ℤ, pos, negsuc, pos_part, neg_part,
  ◌≤ℤ◌, ◌<ℤ◌, arith,
}
use invora_api.Result.{ok, bind-eq-ok}
use invora_api.Decimal.{
  Decimal, finite, infinity, nan, is_negative, is_zero, exponent_below, at_least,
  magnitude_at_least, units, quantize, of_milli, signed, reaches,
}
use invora_api.Inventory.Quantity.{
  RawQuantity, max_stock_quantity, to_decimal, check_stock_quantity, check_signed_quantity,
  normalize_stock_quantity,
}

abbrev pub max_units : ℕ
max_units = 100_000_000_000_000

-- A magnitude below the limit has its thousandths below a thousand times the limit.
units-lt-max_units :
    (c : ℕ) (e : ℤ)
    → exponent_below 3 (finite false c e) ≡ ok false
    → reaches max_stock_quantity c e ≡ false
    → units 3 c e < max_units
unfolding exponent_below reaches units
units-lt-max_units c (pos e) h r =
    let below : c * 10 ^ e < max_stock_quantity = ground arith in
    simp (towards_suc, pow-suc) (omega arith)
units-lt-max_units c (negsuc zero) h r = ground arith
units-lt-max_units c (negsuc (suc zero)) h r = ground arith
units-lt-max_units c (negsuc (suc (suc zero))) h r = ground arith
units-lt-max_units c (negsuc (suc (suc (suc n)))) h r = ground arith

-- A coefficient of zero has zero units.
units-zero : (e : ℤ) → exponent_below 3 (finite false 0 e) ≡ ok false → units 3 0 e ≡ 0
unfolding exponent_below units
units-zero (pos e) h = omega arith
units-zero (negsuc zero) h = refl
units-zero (negsuc (suc zero)) h = refl
units-zero (negsuc (suc (suc zero))) h = refl
units-zero (negsuc (suc (suc (suc n)))) h = ground arith

exponent_below_sign :
    (k : ℕ) (s : Bool) (c : ℕ) (e : ℤ)
    → exponent_below k (finite s c e) ≡ exponent_below k (finite false 0 e)
unfolding exponent_below
exponent_below_sign k s c (pos e) = refl
exponent_below_sign k s c (negsuc n) = refl

signed-bounds :
    (n : ℕ) → n < max_units → (pos 0 ≤ℤ signed false n) × (signed false n <ℤ pos max_units)
signed-bounds zero h = omega arith
signed-bounds (suc n) h = omega arith

-- What a quantity that has passed the checks is.
pub check_stock_quantity-bounds :
    (d : Decimal) (q : ℤ) → check_stock_quantity d ≡ ok q → (pos 0 ≤ℤ q) × (q <ℤ pos max_units)
unfolding check_stock_quantity is_negative at_least quantize
check_stock_quantity-bounds (finite false c e) q h =
    ground
      (arith, exponent_below_sign 3 false c e, units-lt-max_units c e, signed-bounds (units 3 c e))
check_stock_quantity-bounds (finite true zero e) q h =
    ground (arith, exponent_below_sign 3 true zero e, units-zero e)
check_stock_quantity-bounds (finite true (suc c) e) q h = ground arith
check_stock_quantity-bounds (infinity false) q h = unfold exponent_below in ground arith
check_stock_quantity-bounds (infinity true) q h = ground arith
check_stock_quantity-bounds nan q h = ground arith

-- Every stored quantity in range is accepted, and is itself again.
pub check_stock_quantity-of_milli :
    (n : ℕ) → n < max_units → check_stock_quantity (of_milli (pos n)) ≡ ok (pos n)
unfolding check_stock_quantity is_negative at_least quantize exponent_below reaches units
check_stock_quantity-of_milli zero h = ground arith
check_stock_quantity-of_milli (suc n) h = ground arith

-- A quantity that is accepted, from whatever text or number, is not negative and is fewer than
-- 10 ^ 14 thousandths, so that it fits a column of type Numeric(14, 3).
pub normalize_stock_quantity-bounds :
    (v : RawQuantity) (q : ℤ)
    → normalize_stock_quantity v ≡ ok q
    → (pos 0 ≤ℤ q) × (q <ℤ pos max_units)
unfolding normalize_stock_quantity
normalize_stock_quantity-bounds v q h =
    let (d, _, e) = bind-eq-ok (to_decimal v) check_stock_quantity h in
    check_stock_quantity-bounds d q e

signed-magnitude :
    (s : Bool) (n : ℕ)
    → n < max_units
    → (pos_part (signed s n) < max_units) × (neg_part (signed s n) < max_units)
signed-magnitude true zero h = omega arith
signed-magnitude true (suc n) h = omega arith
signed-magnitude false zero h = omega arith
signed-magnitude false (suc n) h = omega arith

-- What a signed quantity that has passed the checks is.
pub check_signed_quantity-bounds :
    (d : Decimal) (q : ℤ)
    → check_signed_quantity d ≡ ok q
    → (pos_part q < max_units) × (neg_part q < max_units)
unfolding check_signed_quantity magnitude_at_least quantize
check_signed_quantity-bounds (finite false c e) q h = ground (
  arith,
  exponent_below_sign 3 false c e,
  units-lt-max_units c e,
  signed-magnitude false (units 3 c e),
)
check_signed_quantity-bounds (finite true c e) q h = ground (
  arith,
  exponent_below_sign 3 true c e,
  exponent_below_sign 3 false c e,
  units-lt-max_units c e,
  signed-magnitude true (units 3 c e),
)
check_signed_quantity-bounds (infinity s) q h = unfold exponent_below is_zero in ground arith
check_signed_quantity-bounds nan q h = unfold exponent_below is_zero in ground arith

-- A stored stock that passes the checks is what it was.
pub check_stock_quantity-stored :
    (z c : ℤ) → check_stock_quantity (of_milli z) ≡ ok c → (c ≡ z) × (pos 0 ≤ℤ z)
unfolding check_stock_quantity is_negative at_least quantize exponent_below reaches units
check_stock_quantity-stored (pos zero) c h = ground arith
check_stock_quantity-stored (pos (suc n)) c h = ground arith
check_stock_quantity-stored (negsuc n) c h = ground arith

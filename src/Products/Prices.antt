-- ===== src/Products/Prices.antt =====
-- What validate_price of app/modules/products/domain/catalog.py accepts and returns.
mod Tests
use native.Mathlib.Nat.{pow-suc}
use native.Mathlib.Numerals.{towards_suc}
use invora_api.Base.{
  ℕ, zero, suc, ◌*◌, ◌^◌, ◌<◌, ◌≡◌, refl, Bool, true, false, ℤ, pos, negsuc, pos_part, neg_part,
  ◌≤ℤ◌, ◌<ℤ◌, Option, none, some, arith,
}
use invora_api.Result.{ok, err, bind-eq-ok}
use invora_api.Decimal.{
  Decimal, finite, infinity, nan, is_negative, exponent_below, at_least, units, quantize, signed,
  reaches, parse_decimal,
}
use invora_api.Products.Values.{
  FieldValue, null, text, number, flag, ident, check_price, parsed_price, validate_price,
}

abbrev max_cents : ℕ
max_cents = 1_000_000_000_000

units-lt-max_cents :
    (c : ℕ) (e : ℤ)
    → exponent_below 2 (finite false c e) ≡ ok false
    → reaches 10_000_000_000 c e ≡ false
    → units 2 c e < max_cents
unfolding exponent_below reaches units
units-lt-max_cents c (pos e) h r =
    let below : c * 10 ^ e < 10_000_000_000 = ground arith in
    simp (towards_suc, pow-suc) (omega arith)
units-lt-max_cents c (negsuc zero) h r = ground arith
units-lt-max_cents c (negsuc (suc zero)) h r = ground arith
units-lt-max_cents c (negsuc (suc (suc n))) h r = ground arith

units_zero : (e : ℤ) → exponent_below 2 (finite false 0 e) ≡ ok false → units 2 0 e ≡ 0
unfolding exponent_below units
units_zero (pos e) h = omega arith
units_zero (negsuc zero) h = refl
units_zero (negsuc (suc zero)) h = refl
units_zero (negsuc (suc (suc n))) h = ground arith

same_exponent :
    (s : Bool) (c : ℕ) (e : ℤ)
    → exponent_below 2 (finite s c e) ≡ exponent_below 2 (finite false 0 e)
unfolding exponent_below
same_exponent s c (pos e) = refl
same_exponent s c (negsuc n) = refl

signed-cents :
    (n : ℕ) → n < max_cents → (pos 0 ≤ℤ signed false n) × (signed false n <ℤ pos max_cents)
signed-cents zero h = omega arith
signed-cents (suc n) h = omega arith

check_price-bounds :
    (d : Decimal) (p : ℤ) → check_price d ≡ ok p → (pos 0 ≤ℤ p) × (p <ℤ pos max_cents)
unfolding check_price is_negative at_least quantize
check_price-bounds (finite false c e) p h =
    ground (arith, same_exponent false c e, units-lt-max_cents c e, signed-cents (units 2 c e))
check_price-bounds (finite true zero e) p h =
    ground (arith, same_exponent true zero e, units_zero e)
check_price-bounds (finite true (suc c) e) p h = ground arith
check_price-bounds (infinity false) p h = unfold exponent_below in ground arith
check_price-bounds (infinity true) p h = ground arith
check_price-bounds nan p h = ground arith

parsed_price-bounds :
    (o : Option Decimal) (p : ℤ)
    → parsed_price o ≡ ok (some p)
    → (pos 0 ≤ℤ p) × (p <ℤ pos max_cents)
parsed_price-bounds none p h = cc
parsed_price-bounds (some d) p h =
    let (q, e, same) = bind-eq-ok (check_price d) _ h in check_price-bounds d p (cc)

-- A price that is accepted, from whatever text or number, is not negative and is fewer than 10 ^ 12
-- cents, so that it fits a column of type Numeric(12, 2).
pub validate_price-bounds :
    (v : FieldValue) (p : ℤ)
    → validate_price v ≡ ok (some p)
    → (pos 0 ≤ℤ p) × (p <ℤ pos 1_000_000_000_000)
unfolding validate_price
validate_price-bounds null p h = cc
validate_price-bounds (number d) p h = parsed_price-bounds (some d) p h
validate_price-bounds (text t) p h = parsed_price-bounds (parse_decimal t) p h
validate_price-bounds (flag b) p h = cc
validate_price-bounds (ident n) p h = cc

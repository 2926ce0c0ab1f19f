-- ===== src/Sales/Accepted.antt =====
-- What an accepted row of an upload holds.
use native.Mathlib.Nat.{pow-suc}
use invora_api.Base.{
  ℕ, zero, suc, ◌+◌, ◌*◌, ◌^◌, ◌<◌, ◌≡◌, refl, sym, true, false, ℤ, pos, negsuc, ◌≤ℤ◌, ◌<ℤ◌, Option,
  none, some, arith, inl, inr, Bool-cases, Option-cases, ◌||◌, is_some,
}
use invora_api.Text.{Text, strip}
use invora_api.Result.{ok, bind-eq-ok}
use invora_api.Decimal.{
  Decimal, finite, infinity, nan, is_nonpositive, is_negative, exponent_below, quantize, units,
  signed, parse_decimal,
}
use invora_api.Sales.Row.{
  RejectCode, passed, check_quantity, parse_quantity, check_money, parse_money, amount_of, total_of,
  is_blank,
}

pow10-positive : (n : ℕ) → 0 < 10 ^ n
pow10-positive zero = omega arith
pow10-positive (suc n) = let h = pow10-positive n in simp (pow-suc) (omega arith)

mul-positive : (c x : ℕ) → 0 < x → 0 < suc c * x
mul-positive zero x h = omega arith
mul-positive (suc c) x h = let k = mul-positive c x h in ground arith

units-positive :
    (c : ℕ) (e : ℤ) → exponent_below 3 (finite false (suc c) e) ≡ ok false → 0 < units 3 (suc c) e
unfolding exponent_below units
units-positive c (pos e) h = mul-positive c (10 ^ (e + 3)) (pow10-positive (e + 3))
units-positive c (negsuc zero) h = ground arith
units-positive c (negsuc (suc zero)) h = ground arith
units-positive c (negsuc (suc (suc zero))) h = ground arith
units-positive c (negsuc (suc (suc (suc n)))) h = ground arith

check_quantity-positive : (d : Decimal) (q : ℤ) → check_quantity d ≡ ok (passed q) → pos 0 <ℤ q
unfolding check_quantity is_nonpositive quantize
check_quantity-positive (finite false zero e) q h = ground arith
check_quantity-positive (finite false (suc c) e) q h = ground (arith, units-positive c e)
check_quantity-positive (finite true c e) q h = ground arith
check_quantity-positive (infinity false) q h = unfold exponent_below in ground arith
check_quantity-positive (infinity true) q h = ground arith
check_quantity-positive nan q h = ground arith

pub parse_quantity-positive : (t : Text) (q : ℤ) → parse_quantity t ≡ ok (passed q) → pos 0 <ℤ q
unfolding parse_quantity
parse_quantity-positive t q h = elim (Bool-cases (is_blank (strip t))) [
  | inl blank ↦ let k = (rw blank at h) in cc
  | inr given ↦ elim (Option-cases (parse_decimal (strip t))) [
    | inl bad ↦ let k = (rw (given, bad) at h) in cc
    | inr (d, read) ↦ check_quantity-positive d q (rw (given, read) at h)
  ]
]

-- An amount of money that may be missing is not negative.
abbrev pub IsNonNegative : Option ℤ → Type 0
IsNonNegative none = Unit
IsNonNegative (some z) = pos 0 ≤ℤ z

units-zero : (e : ℤ) → exponent_below 2 (finite true 0 e) ≡ ok false → units 2 0 e ≡ 0
unfolding exponent_below units
units-zero (pos e) h = omega arith
units-zero (negsuc zero) h = refl
units-zero (negsuc (suc zero)) h = refl
units-zero (negsuc (suc (suc n))) h = ground arith

signed-natural : (n : ℕ) → pos 0 ≤ℤ signed false n
signed-natural zero = omega arith
signed-natural (suc n) = omega arith

check_money-IsNonNegative :
    (code : RejectCode) (d : Decimal) (m : Option ℤ)
    → check_money code d ≡ ok (passed m)
    → IsNonNegative m
unfolding check_money is_negative quantize
check_money-IsNonNegative code d none h = tt
check_money-IsNonNegative code (finite false c e) (some z) h =
    ground (arith, signed-natural (units 2 c e))
check_money-IsNonNegative code (finite true zero e) (some z) h = ground (arith, units-zero e)
check_money-IsNonNegative code (finite true (suc c) e) (some z) h = ground arith
check_money-IsNonNegative code (infinity false) (some z) h = unfold exponent_below in ground arith
check_money-IsNonNegative code (infinity true) (some z) h = ground arith
check_money-IsNonNegative code nan (some z) h = ground arith

pub parse_money-IsNonNegative :
    (code : RejectCode) (t : Text) (m : Option ℤ)
    → parse_money code t ≡ ok (passed m)
    → IsNonNegative m
unfolding parse_money
parse_money-IsNonNegative code t m h = elim (Bool-cases (is_blank (strip t))) [
  | inl blank ↦ let k = (rw blank at h) in let e : none ≡ m = cc in rw (sym e) tt
  | inr given ↦ elim (Option-cases (parse_decimal (strip t))) [
    | inl bad ↦ let k = (rw (given, bad) at h) in cc
    | inr (d, read) ↦ check_money-IsNonNegative code d m (rw (given, read) at h)
  ]
]

-- The total of a row whose own total is not negative.
pub total_of-Totals :
    (q : ℤ) (price given total : Option ℤ)
    → IsNonNegative given
    → total_of q price given ≡ ok total
    → IsNonNegative total × ((is_some given || is_some price) ≡ is_some total)
unfolding total_of amount_of
total_of-Totals q price (some t) total n h = let e : some t ≡ total = cc in rw (sym e) (n, refl)
total_of-Totals q none none total n h = let e : none ≡ total = cc in rw (sym e) (tt, refl)
total_of-Totals q (some p) none total n h =
    let (z, got, k) = bind-eq-ok (amount_of q p) _ h in
    let e : some z ≡ total = cc in rw (sym e) (amount q p z got, refl)
  where
    amount : (a b z : ℤ) → amount_of a b ≡ ok z → pos 0 ≤ℤ z
    amount a b z got = ground arith

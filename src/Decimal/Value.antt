-- ===== src/Decimal/Value.antt =====
-- The values of `Decimal`: a sign, a coefficient and a power of ten, or a special value.
use invora_api.Base.{
  ℕ, zero, suc, ◌+◌, ◌-◌, ◌*◌, ◌^◌, Bool, true, false, ◌&&◌, ℤ, pos, negsuc, leb, ◌==◌, not,
  if◌then◌else◌,
}
use invora_api.Result.{Result, ok, err}
use invora_api.Decimal.Rounding.{round_half_even}

pub data Decimal : Type 0 where
  finite : Bool → ℕ → ℤ → Decimal
  infinity : Bool → Decimal
  nan : Decimal

-- The exceptions of the language that operations on a `Decimal` raise: `decimal.InvalidOperation`,
-- and `TypeError` where the exponent of an infinity, the text "F", is compared with a number.
pub data DecimalFault : Type 0 where
  invalid_operation type_error : DecimalFault

-- `d < 0`
unfoldable pub is_negative : Decimal → Result DecimalFault Bool
is_negative (finite s c e) = ok (s && not (c == 0))
is_negative (infinity s) = ok s
is_negative nan = err invalid_operation

-- `d == 0`, which raises for no value.
unfoldable pub is_zero : Decimal → Bool
is_zero (finite s c e) = c == 0
is_zero (infinity s) = false
is_zero nan = false

-- `d <= 0`
unfoldable pub is_nonpositive : Decimal → Result DecimalFault Bool
is_nonpositive (finite s c e) = ok (if s then true else c == 0)
is_nonpositive (infinity s) = ok s
is_nonpositive nan = err invalid_operation

-- `d.as_tuple().exponent < -k`
unfoldable pub exponent_below : ℕ → Decimal → Result DecimalFault Bool
exponent_below k (finite s c (pos e)) = ok false
exponent_below k (finite s c (negsuc n)) = ok (leb k n)
exponent_below k (infinity s) = err type_error
exponent_below k nan = err type_error

-- bound ≤ c * 10 ^ e
unfoldable pub reaches : ℕ → ℕ → ℤ → Bool
reaches bound c (pos e) = leb bound (c * 10 ^ e)
reaches bound c (negsuc n) = leb (bound * 10 ^ (n + 1)) c

-- `d >= bound`, for a natural number `bound`.
unfoldable pub at_least : ℕ → Decimal → Result DecimalFault Bool
unfolding reaches
at_least bound (finite s c e) = ok (if s then bound == 0 && c == 0 else reaches bound c e)
at_least bound (infinity s) = ok (not s)
at_least bound nan = err invalid_operation

-- `abs(d) >= bound`
unfoldable pub magnitude_at_least : ℕ → Decimal → Result DecimalFault Bool
unfolding reaches
magnitude_at_least bound (finite s c e) = ok (reaches bound c e)
magnitude_at_least bound (infinity s) = ok true
magnitude_at_least bound nan = err invalid_operation

-- |d| in units of 10^-k, to the nearest, ties to even.
unfoldable pub units : ℕ → ℕ → ℤ → ℕ
unfolding round_half_even
units k c (pos e) = c * 10 ^ (e + k)
units k c (negsuc n) =
    if leb (n + 1) k then c * 10 ^ (k - (n + 1)) else round_half_even c (10 ^ (n + 1 - k))

-- A count of units with its sign.
abbrev pub signed : Bool → ℕ → ℤ
signed s zero = pos 0
signed true (suc n) = negsuc n
signed false (suc n) = pos (suc n)

-- `d.quantize(Decimal("1E-k"))`, as the number of units of 10^-k: it raises if the result has more
-- digits than the context's precision, and for an infinity. Not a number has no count of units; no
-- caller quantizes it, and it is answered as the signaling one is.
unfoldable pub quantize : ℕ → Decimal → Result DecimalFault ℤ
unfolding units
quantize k (finite s c e) =
    let q = units k c e in if leb (10 ^ 28) q then err invalid_operation else ok (signed s q)
quantize k (infinity s) = err invalid_operation
quantize k nan = err invalid_operation

-- The value of a column of type Numeric(_, k), or of a quantized value: z units of 10^-3.
abbrev pub of_milli : ℤ → Decimal
of_milli (pos n) = finite false n (negsuc 2)
of_milli (negsuc n) = finite true (suc n) (negsuc 2)

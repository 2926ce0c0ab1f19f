-- ===== src/Decimal/Parse.antt =====
-- `Decimal(text)`: the grammar of the decimal module for ASCII digits.
use invora_api.Base.{
  ℕ, ◌+◌, ◌-◌, ◌*◌, Bool, true, false, ◌&&◌, ◌||◌, not, [], ◌∷◌, ◌++◌, ℤ, pos, sub_ℕ, leb, ◌==◌,
  if◌then◌else◌, keep, length, reverse, Option, none, some,
}
use invora_api.Text.{Text, codes, same_text, normalize}
use invora_api.Decimal.Value.{Decimal, finite, infinity, nan}

abbrev is_digit : ℕ → Bool
is_digit c = leb 48 c && leb c 57

-- The digits at the head of a text, and what follows them.
digits : Text → Text × Text
digits [] = ([], [])
digits (c ∷ t) = let (ds, rest) = digits t in if is_digit c then (c ∷ ds, rest) else ([], c ∷ t)

number_from : ℕ → Text → ℕ
number_from acc [] = acc
number_from acc (c ∷ t) = number_from (acc * 10 + (c - 48)) t

-- The exponent part, at the end of the text: e+12, e-3, or nothing.
exponent_digits : Bool → ℕ → Text × Text → Option ℤ
unfolding number_from
exponent_digits s places ([], rest) = none
exponent_digits s places (d ∷ ds, []) =
    let n = number_from 0 (d ∷ ds) in some (if s then sub_ℕ 0 (n + places) else sub_ℕ n places)
exponent_digits s places (d ∷ ds, c ∷ rest) = none

exponent_part : ℕ → Text → Option ℤ
unfolding exponent_digits digits
exponent_part places [] = some (sub_ℕ 0 places)
exponent_part places (e ∷ []) = none
exponent_part places (e ∷ c ∷ t) =
    if not (e == 101)
    then none
    else if c == 45
    then exponent_digits true places (digits t)
    else if c == 43
    then exponent_digits false places (digits t)
    else exponent_digits false places (digits (c ∷ t))

-- After the digits of the whole part: a point and more digits, or the exponent part at once.
fraction : Bool → Text → Text → Option Decimal
unfolding digits exponent_part number_from
fraction s whole [] =
    if length whole == 0 then none else some (finite s (number_from 0 whole) (pos 0))
fraction s whole (c ∷ t) =
    let (ds, rest) = digits (if c == 46 then t else []) in
    if length (whole ++ ds) == 0
    then none
    else elim (exponent_part (length ds) (if c == 46 then rest else c ∷ t)) [
      | none ↦ none
      | some e ↦ some (finite s (number_from 0 (whole ++ ds)) e)
    ]

-- "nan" or "snan", with a payload of digits at its end (read backwards).
is_nan : Text → Bool
unfolding digits
is_nan t =
    let (ds, rest) = digits (reverse t) in
    same_text rest (codes "nan") || same_text rest (codes "nans")

unsigned : Bool → Text → Option Decimal
unfolding digits fraction is_nan
unsigned s t =
    if same_text t (codes "inf") || same_text t (codes "infinity")
    then some (infinity s)
    else if is_nan t
    then some nan
    else let (ds, rest) = digits t in fraction s ds rest

signed_text : Text → Option Decimal
unfolding unsigned
signed_text [] = none
signed_text (c ∷ t) =
    if c == 45
    then unsigned true t
    else if c == 43
    then unsigned false t
    else unsigned false (c ∷ t)

-- Blanks at the ends and underscores are dropped; letters may be of either case. `none` stands for
-- the exception `InvalidOperation`.
unfoldable pub parse_decimal : Text → Option Decimal
unfolding signed_text
parse_decimal t = signed_text (keep (λ c. not (c == 95)) (normalize t))

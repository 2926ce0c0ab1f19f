-- ===== src/Products/Canonical.antt =====
-- SKUs in their normal form.
use mathlib.Core.List.{reverse-reverse, reverse-append}
use invora_api.Base.{
  ℕ, ◌≡◌, refl, sym, Bool, true, false, ◌&&◌, inl, inr, [], ◌∷◌, ◌++◌, all, length, reverse, ltb,
  arith, Bool-cases,
}
use invora_api.Text.{Text, is_space, drop_space, strip}
use invora_api.Result.{ok}
use invora_api.Products.Sku.{
  Casing, dash_spaces, is_mark, drop_marks, strip_marks, is_sku_char, is_sku, check_sku,
  normalize_sku,
}

all-append : (p : ℕ → Bool) (s t : Text) → all p (s ++ t) ≡ (all p s && all p t)
all-append p [] t = refl
all-append p (c ∷ s) t = ground (arith, all-append p s t)

reverse-cons : (c : ℕ) (t : Text) → reverse (c ∷ t) ≡ reverse t ++ c ∷ []
reverse-cons c t = reverse-append (c ∷ []) t

all-reverse : (p : ℕ → Bool) (t : Text) → all p t ≡ true → all p (reverse t) ≡ true
all-reverse p [] h = refl
all-reverse p (c ∷ t) h =
    rw (reverse-cons c t, all-append p (reverse t) (c ∷ []), all-reverse p t (ground arith))
      (ground arith)

sku_char-no_space : (c : ℕ) → is_sku_char c ≡ true → is_space c ≡ false
unfolding is_space
sku_char-no_space c h = ground arith

drop_space-none : (t : Text) → all is_sku_char t ≡ true → drop_space t ≡ t
unfolding drop_space
drop_space-none [] h = refl
drop_space-none (c ∷ t) h = let e = sku_char-no_space c (ground arith) in rw e refl

strip-none : (t : Text) → all is_sku_char t ≡ true → strip t ≡ t
unfolding strip
strip-none t h =
    rw (drop_space-none t h, drop_space-none (reverse t) (all-reverse is_sku_char t h))
      (reverse-reverse t)

dash_spaces-none : (b : Bool) (t : Text) → all is_sku_char t ≡ true → dash_spaces b t ≡ t
unfolding dash_spaces
dash_spaces-none b [] h = refl
dash_spaces-none b (c ∷ t) h =
    let e = sku_char-no_space c (ground arith) in
    rw (e, dash_spaces-none false t (ground arith)) refl

drop_marks-twice : (t : Text) → drop_marks (drop_marks t) ≡ drop_marks t
unfolding drop_marks
drop_marks-twice [] = refl
drop_marks-twice (c ∷ t) = elim (Bool-cases (is_mark c)) [
  | inl mark ↦ rw mark (drop_marks-twice t)
  | inr other ↦ rw other (rw other refl)
]

-- A stripped text whose first character is no mark is stripped again to itself.
strip_marks-twice :
    (t : Text)
    → drop_marks (strip_marks t) ≡ strip_marks t
    → strip_marks (strip_marks t) ≡ strip_marks t
unfolding strip_marks
strip_marks-twice t h =
    let r = drop_marks (reverse (drop_marks t)) in
    rw (h, reverse-reverse r, drop_marks-twice (reverse (drop_marks t))) refl

drop_marks-sku : (t : Text) → is_sku t ≡ true → drop_marks t ≡ t
unfolding drop_marks is_sku
drop_marks-sku [] h = refl
drop_marks-sku (c ∷ t) h = ground arith

is_sku-chars : (t : Text) → is_sku t ≡ true → all is_sku_char t ≡ true
unfolding is_sku
is_sku-chars [] h = refl
is_sku-chars (c ∷ t) h = ground arith

-- What the checks let through is the text itself, a SKU.
check_sku-ok : (t u : Text) → check_sku t ≡ ok u → (t ≡ u) × (is_sku t ≡ true)
unfolding is_sku
check_sku-ok [] u h = cc
check_sku-ok (c ∷ t) u h = elim (Bool-cases (ltb 64 (length (c ∷ t)))) [
  | inl long ↦ let k = (rw long at h) in cc
  | inr short ↦ elim (Bool-cases (is_sku (c ∷ t))) [
    | inl sku ↦ let k = (rw (short, sku) at h) in (cc, sku)
    | inr other ↦ let k = (rw (short, other) at h) in cc
  ]
]

-- A SKU that comes out of the normalization is of the pattern, and normalizing it again gives it back,
-- when `upper` leaves texts of capital letters, digits and marks alone.
pub normalize_sku-canonical :
    (casing : Casing) (value sku : Text)
    → ((t : Text) → all is_sku_char t ≡ true → casing.upper t ≡ t)
    → normalize_sku casing value ≡ ok sku
    → (is_sku sku ≡ true) × (normalize_sku casing sku ≡ ok sku)
unfolding normalize_sku
normalize_sku-canonical casing value sku capital h =
    let stripped = strip_marks (dash_spaces false (casing.upper (strip value))) in
    let (same, is) = check_sku-ok stripped sku h in
    let is' : is_sku sku ≡ true = rw (sym same) is in
    let chars = is_sku-chars sku is' in
    let again : strip_marks sku ≡ sku = rw (sym same) (
      strip_marks-twice (dash_spaces false (casing.upper (strip value)))
        (drop_marks-sku stripped is)) in
    (
      is',
      rw (strip-none sku chars, capital sku chars, dash_spaces-none false sku chars, again)
          (rw same at h),
    )

-- ===== src/Text/Laws.antt =====
-- Laws of the operations on texts.
use invora_api.Base.{ℕ, ◌≡◌, refl, true, [], ◌∷◌, ◌++◌, false, arith}
use invora_api.Text.Defs.{Text, same_text, lower_char, lower, split_on, has_char}

-- Equal texts are equal code point by code point.
pub same_text→eq : (s t : Text) → same_text s t ≡ true → s ≡ t
same_text→eq [] [] h = refl
same_text→eq [] (b ∷ t) h = cc
same_text→eq (a ∷ s) [] h = cc
same_text→eq (a ∷ s) (b ∷ t) h = ground (arith, same_text→eq s t)

pub same_text_refl : (s : Text) → same_text s s ≡ true
same_text_refl [] = refl
same_text_refl (a ∷ s) = ground (arith, same_text_refl s)

lower_char_idem : (c : ℕ) → lower_char (lower_char c) ≡ lower_char c
unfolding lower_char
lower_char_idem c = ground arith

pub lower_idem : (t : Text) → lower (lower t) ≡ lower t
unfolding lower
lower_idem [] = refl
lower_idem (c ∷ t) = cc (lower_char_idem c, lower_idem t)

-- A text without the separator is one part, and what follows the separator is split by itself.
pub split_on-none : (sep : ℕ) (t : Text) → has_char sep t ≡ false → split_on sep t ≡ t ∷ []
unfolding split_on
split_on-none sep [] h = refl
split_on-none sep (c ∷ t) h = ground (arith, split_on-none sep t)

pub split_on-append :
    (sep : ℕ) (t rest : Text)
    → has_char sep t ≡ false
    → split_on sep (t ++ sep ∷ rest) ≡ t ∷ split_on sep rest
unfolding split_on
split_on-append sep [] rest h = ground arith
split_on-append sep (c ∷ t) rest h = ground (arith, split_on-append sep t rest)

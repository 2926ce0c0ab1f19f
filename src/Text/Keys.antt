-- ===== src/Text/Keys.antt =====
-- Unique indexes: no two rows of a table have the same text for a key.
use invora_api.Base.{
  ◌≡◌, refl, ◌≤◌, Bool, false, inl, inr, List, [], ◌∷◌, ◌++◌, map, any, count_if, count_if-append,
  arith, Bool-cases, sym,
}
use invora_api.Text.Defs.{Text, same_text}
use invora_api.Text.Laws.{same_text→eq}

module _ {A : Type 0} where
  abbrev pub has_key : (A → Text) → Text → A → Bool
  has_key key k x = same_text (key x) k

  abbrev pub IsUnique : (A → Text) → List A → Type 0
  IsUnique key xs = (k : Text) → count_if (has_key key k) xs ≤ 1

  not_any→none_counted : (p : A → Bool) (xs : List A) → any p xs ≡ false → count_if p xs ≡ 0
  not_any→none_counted p [] h = refl
  not_any→none_counted p (x ∷ xs) h = ground (arith, not_any→none_counted p xs)

  pub add-IsUnique :
      (key : A → Text) (x : A) (xs : List A)
      → any (has_key key (key x)) xs ≡ false
      → IsUnique key xs
      → IsUnique key (xs ++ x ∷ [])
  add-IsUnique key x xs free h k = elim (Bool-cases (same_text (key x) k)) [
    | inl same ↦
        let e = same_text→eq (key x) k same in
        let counted = not_any→none_counted (has_key key k) xs (rw (sym e) free) in
        let sum = count_if-append (has_key key k) xs (x ∷ []) in ground arith
    | inr other ↦
        let before = h k in let sum = count_if-append (has_key key k) xs (x ∷ []) in ground arith
  ]

  pub map-IsUnique :
      (key : A → Text) (f : A → A) (xs : List A)
      → ((x : A) → key (f x) ≡ key x)
      → IsUnique key xs
      → IsUnique key (map f xs)
  map-IsUnique key f xs same h k = omega (arith, counted xs, h k)
    where
      counted : (xs : List A) → count_if (has_key key k) (map f xs) ≡ count_if (has_key key k) xs
      counted [] = refl
      counted (x ∷ xs) = rw (same x) (rw (counted xs) refl)

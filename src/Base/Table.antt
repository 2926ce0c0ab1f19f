-- ===== src/Base/Table.antt =====
-- Rows under an identifier: a row written anew, the rows beside it, and what both leave of a unique
-- index.
use Prim.Native.Nat.{ℕ, ◌+◌, ◌≤◌}
use mathlib.Core.Path.{◌≡◌, refl, sym}
use mathlib.Core.Logic.{inl, inr}
use mathlib.Core.Bool.{Bool, true, false}
use mathlib.Core.List.{List, [], ◌∷◌, ◌++◌, map}
use native.Mathlib.Omega.{arith}
use invora_api.Base.Tests.{if◌then◌else◌, ◌==◌, Bool-cases, ltb}
use invora_api.Base.Lists.{count_if, count_if-append, any, all}

module _ {A : Type 0} (id : A → ℕ) where
  abbrev pub replace_row : A → A → A
  replace_row new x = if id x == id new then new else x

  abbrev pub other_rows : ℕ → List A → List A
  other_rows i [] = []
  other_rows i (x ∷ xs) = let rest = other_rows i xs in if id x == i then rest else x ∷ rest

  -- No two rows have one identifier, and the next identifier is free.
  pub record HasIds (xs : List A) (next : ℕ) : Type 0 where
    pub once : (i : ℕ) → count_if (λ x. id x == i) xs ≤ 1
    pub fresh : all (λ x. ltb (id x) next) xs ≡ true

module _ {A : Type 0} where
  pub not_any→count_if : (p : A → Bool) (xs : List A) → any p xs ≡ false → count_if p xs ≡ 0
  not_any→count_if p [] h = refl
  not_any→count_if p (x ∷ xs) h = ground (arith, not_any→count_if p xs)

  pub count_if-weaker :
      (p q : A → Bool)
      → ((x : A) → q x ≡ true → p x ≡ true)
      → (xs : List A) → count_if p xs ≡ 0
      → count_if q xs ≡ 0
  count_if-weaker p q w [] h = refl
  count_if-weaker p q w (x ∷ xs) h = elim (Bool-cases (q x)) [
    | inl yes_q ↦ let yes_p = w x yes_q in ground arith
    | inr no_q ↦ ground (arith, count_if-weaker p q w xs)
  ]

  all-append :
      (p : A → Bool) (x : A) (xs : List A)
      → all p xs ≡ true
      → p x ≡ true
      → all p (xs ++ x ∷ []) ≡ true
  all-append p x [] h k = ground arith
  all-append p x (y ∷ ys) h k = ground (arith, all-append p x ys)

module _ {A : Type 0} (id : A → ℕ) where
  fresher :
      (xs : List A) (n : ℕ)
      → all (λ x. ltb (id x) n) xs ≡ true
      → all (λ x. ltb (id x) (n + 1)) xs ≡ true
  fresher [] n h = refl
  fresher (x ∷ xs) n h = ground (arith, fresher xs n)

  fresh→none :
      (xs : List A) (n : ℕ) → all (λ x. ltb (id x) n) xs ≡ true → count_if (λ x. id x == n) xs ≡ 0
  fresh→none [] n h = refl
  fresh→none (x ∷ xs) n h = ground (arith, fresh→none xs n)

  add_once :
      (x : A) (xs : List A) (next : ℕ)
      → id x ≡ next
      → HasIds id xs next
      → (i : ℕ) → count_if (λ y. id y == i) (xs ++ x ∷ []) ≤ 1
  add_once x xs next e h i =
      let sum = count_if-append (λ y. id y == i) xs (x ∷ []) in
      let before = h.once i in
      elim (Bool-cases (id x == i)) [
        | inl same ↦
            let p : next ≡ i = ground arith in
            let none_there : count_if (λ y. id y == i) xs ≡ 0 =
              rw (sym p) (fresh→none xs next h.fresh) in
            ground arith
        | inr other ↦ ground arith
      ]

  pub add-HasIds :
      (x : A) (xs : List A) (next : ℕ)
      → id x ≡ next
      → HasIds id xs next
      → HasIds id (xs ++ x ∷ []) (next + 1)
  add-HasIds x xs next e h = record {
    once = add_once x xs next e h;
    fresh =
        all-append (λ y. ltb (id y) (next + 1)) x xs (fresher xs next h.fresh)
          (rw e (ground arith));
  }

  pub later-HasIds : (xs : List A) (next : ℕ) → HasIds id xs next → HasIds id xs (next + 1)
  later-HasIds xs next h = record { once = h.once; fresh = fresher xs next h.fresh }

  -- A row written anew has the identifier of the row that it replaces.
  replaced_ids :
      (new : A) (p : ℕ → Bool) (xs : List A)
      → count_if (λ x. p (id x)) (map (replace_row id new) xs) ≡ count_if (λ x. p (id x)) xs
  replaced_ids new p [] = refl
  replaced_ids new p (x ∷ xs) = elim (Bool-cases (id x == id new)) [
    | inl same ↦ let e : id x ≡ id new = ground arith in rw (same, replaced_ids new p xs, e) refl
    | inr other ↦ rw (other, replaced_ids new p xs) refl
  ]

  replaced_fresh :
      (new : A) (n : ℕ) (xs : List A)
      → all (λ x. ltb (id x) n) xs ≡ true
      → all (λ x. ltb (id x) n) (map (replace_row id new) xs) ≡ true
  replaced_fresh new n [] h = refl
  replaced_fresh new n (x ∷ xs) h = ground (arith, replaced_fresh new n xs)

  pub replace-HasIds :
      (new : A) (xs : List A) (next : ℕ)
      → HasIds id xs next
      → HasIds id (map (replace_row id new) xs) next
  replace-HasIds new xs next h = record {
    once = λ i. rw (replaced_ids new (λ n. n == i) xs) (h.once i);
    fresh = replaced_fresh new next xs h.fresh;
  }

  replaced_new :
      (new : A) (q : A → Bool) (xs : List A)
      → count_if q (map (replace_row id new) xs)
        ≤ count_if q (other_rows id (id new) xs) + count_if (λ x. id x == id new) xs
  replaced_new new q [] = omega arith
  replaced_new new q (x ∷ xs) = ground (arith, replaced_new new q xs)

  replaced_old :
      (new : A) (q : A → Bool) (xs : List A)
      → q new ≡ false
      → count_if q (map (replace_row id new) xs) ≤ count_if q xs
  replaced_old new q [] h = omega arith
  replaced_old new q (x ∷ xs) h = ground (arith, replaced_old new q xs)

  -- A unique index keeps its promise when the new row finds its place taken by no other row.
  pub replace_unique :
      (new : A) (q : A → Bool) (xs : List A)
      → count_if (λ x. id x == id new) xs ≤ 1
      → (q new ≡ true → count_if q (other_rows id (id new) xs) ≡ 0)
      → count_if q xs ≤ 1
      → count_if q (map (replace_row id new) xs) ≤ 1
  replace_unique new q xs once free h = elim (Bool-cases (q new)) [
    | inl taken ↦ let none_other = free taken in omega (arith, replaced_new new q xs)
    | inr spare ↦ omega (arith, replaced_old new q xs spare)
  ]

module _ {A : Type 0} where
  pub add_unique :
      (new : A) (q : A → Bool) (xs : List A)
      → (q new ≡ true → count_if q xs ≡ 0)
      → count_if q xs ≤ 1
      → count_if q (xs ++ new ∷ []) ≤ 1
  add_unique new q xs free h =
      let sum = count_if-append q xs (new ∷ []) in
      elim (Bool-cases (q new)) [
        | inl taken ↦ let none_there = free taken in ground arith
        | inr spare ↦ ground arith
      ]

  pub count_if-map :
      (q : A → Bool) (f : A → A) (xs : List A)
      → ((x : A) → q (f x) ≡ q x)
      → count_if q (map f xs) ≡ count_if q xs
  count_if-map q f [] same = refl
  count_if-map q f (x ∷ xs) same = rw (same x, count_if-map q f xs same) refl

  all-map :
      (q : A → Bool) (f : A → A) (xs : List A)
      → ((x : A) → q (f x) ≡ q x)
      → all q (map f xs) ≡ all q xs
  all-map q f [] same = refl
  all-map q f (x ∷ xs) same = rw (same x, all-map q f xs same) refl

  -- A change of other columns.
  pub map-HasIds :
      (id : A → ℕ) (f : A → A) (xs : List A) (next : ℕ)
      → ((x : A) → id (f x) ≡ id x)
      → HasIds id xs next
      → HasIds id (map f xs) next
  map-HasIds id f xs next same h = record {
    once = λ i. rw (count_if-map (λ x. id x == i) f xs (λ x. rw (same x) refl)) (h.once i);
    fresh = rw (all-map (λ x. ltb (id x) next) f xs (λ x. rw (same x) refl)) (h.fresh);
  }

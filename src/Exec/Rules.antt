-- ===== src/Exec/Rules.antt =====
-- How a statement about the outcome of a chain of steps is proved: from one about each way in which
-- its first step ends.
use invora_api.Base.{◌≡◌, refl, Bool, true, false}
use invora_api.Result.{Result, ok, err}
use invora_api.Exec.{Exec, continue, handled, try_except, lift, raise_if, ◌>>=◌}

module _ {ℓ κ} {S E A B : Type ℓ} (Q : Result E B × S → Type κ) (m : Exec S E A)
    (f : A → Exec S E B) (s : S) where
  pub bind-post :
      ((a : A) (s' : S) → m s ≡ (ok a, s') → Q (f a s'))
      → ((e : E) (s' : S) → m s ≡ (err e, s') → Q (err e, s'))
      → Q ((m >>= f) s)
  bind-post returns raises = go (m s).0 (m s).1 refl
    where
      go : (r : Result E A) (s' : S) → m s ≡ (r, s') → Q (continue r f s')
      go (ok a) s' p = returns a s' p
      go (err e) s' p = raises e s' p

module _ {ℓ κ} {S E A : Type ℓ} (Q : Result E A × S → Type κ) (m : Exec S E A) (h : E → Exec S E A)
    (s : S) where
  pub try-post :
      ((a : A) (s' : S) → m s ≡ (ok a, s') → Q (ok a, s'))
      → ((e : E) (s' : S) → m s ≡ (err e, s') → Q (h e s'))
      → Q (try_except m h s)
  try-post returns raises = go (m s).0 (m s).1 refl
    where
      go : (r : Result E A) (s' : S) → m s ≡ (r, s') → Q (handled r h s')
      go (ok a) s' p = returns a s' p
      go (err e) s' p = raises e s' p

module _ {ℓ κ} {S E A B : Type ℓ} (Q : Result E B × S → Type κ) where
  -- A pure step leaves the state alone.
  pub lift-post :
      (r : Result E A) (f : A → Exec S E B) (s : S)
      → ((a : A) → r ≡ ok a → Q (f a s))
      → ((e : E) → r ≡ err e → Q (err e, s))
      → Q ((lift r >>= f) s)
  lift-post (ok a) f s returns raises = returns a refl
  lift-post (err e) f s returns raises = raises e refl

module _ {κ} {S E B : Type 0} (Q : Result E B × S → Type κ) where
  pub raise_if-post :
      (b : Bool) (e : E) (f : Unit {0} → Exec S E B) (s : S)
      → (b ≡ false → Q (f tt s))
      → (b ≡ true → Q (err e, s))
      → Q ((raise_if b e >>= f) s)
  raise_if-post true e f s passes raises = raises refl
  raise_if-post false e f s passes raises = passes refl

-- ===== src/Exec.antt =====
-- Methods that work on a database session and may raise. What was written before a raise stays
-- written, so the state comes back beside the exception too.
pub mod Session
pub mod Rules
pub mod Transaction
pub mod Keeps
pub mod Returns
use invora_api.Base.{Bool, true, false, Option, none, some}
use invora_api.Result.{Result, ok, err}

abbrev pub Exec {ℓ} : Type ℓ → Type ℓ → Type ℓ → Type ℓ
Exec S E A = S → Result E A × S

module _ {ℓ} {S E A : Type ℓ} where
  abbrev pub pure : A → Exec S E A
  pure a s = (ok a, s)

  abbrev pub raise : E → Exec S E A
  raise e s = (err e, s)

  -- A pure computation that may raise.
  abbrev pub lift : Result E A → Exec S E A
  lift r s = (r, s)

  abbrev pub gets : (S → A) → Exec S E A
  gets f s = (ok (f s), s)

  -- `if x is None: raise e`
  abbrev pub require : Option A → E → Exec S E A
  require none e s = (err e, s)
  require (some a) e s = (ok a, s)

  abbrev pub handled : Result E A → (E → Exec S E A) → Exec S E A
  handled (ok a) h s = (ok a, s)
  handled (err e) h s = h e s

  -- `try: m` with `except: h`
  abbrev pub try_except : Exec S E A → (E → Exec S E A) → Exec S E A
  try_except m h s = let (r, s') = m s in handled r h s'

module _ {ℓ} {S E A B : Type ℓ} where
  abbrev pub continue : Result E A → (A → Exec S E B) → Exec S E B
  continue (ok a) f s = f a s
  continue (err e) f s = (err e, s)

  infixl 10 ◌>>=◌ ◌>>◌
  abbrev pub ◌>>=◌ : Exec S E A → (A → Exec S E B) → Exec S E B
  ◌>>=◌ m f s = let (r, s') = m s in continue r f s'

  abbrev pub ◌>>◌ : Exec S E A → Exec S E B → Exec S E B
  m >> n = m >>= λ _. n

-- `if b: raise e`
abbrev pub raise_if : {S E : Type 0} → Bool → E → Exec S E Unit
raise_if true e s = (err e, s)
raise_if false e s = (ok tt, s)

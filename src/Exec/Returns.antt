-- ===== src/Exec/Returns.antt =====
-- Postconditions of the methods that return: what holds of the value and of the session.
use invora_api.Base.{◌≡◌, refl, ◌∙◌, sym, Bool, true, false, Option, none, some, if◌then◌else◌}
use invora_api.Result.{Result, ok, err}
use invora_api.Exec.{
  Exec, continue, handled, try_except, lift, require, raise_if, ◌>>=◌, ◌>>◌, raise,
}
use invora_api.Exec.Session.{Session}
use invora_api.Exec.Transaction.{rollback_if, rollback}

pub record Returns {D E A : Type 0} (Q : A → Session D → Type 0) (o : Result E A × Session D)
    : Type 0 where
  pub returned : (a : A) (s : Session D) → o ≡ (ok a, s) → Q a s

module _ {D E A B : Type 0} {Q : B → Session D → Type 0} where
  pub bind-Returns :
      (m : Exec (Session D) E A) (f : A → Exec (Session D) E B) (s : Session D)
      → ((a : A) (s' : Session D) → m s ≡ (ok a, s') → Returns Q (f a s'))
      → Returns Q ((m >>= f) s)
  bind-Returns m f s k = record { returned = λ b t h. go (m s).0 (m s).1 refl b t h }
    where
      go :
          (r : Result E A) (s' : Session D)
          → m s ≡ (r, s')
          → (b : B) (t : Session D) → continue r f s' ≡ (ok b, t)
          → Q b t
      go (ok a) s' p b t h = (k a s' p).returned b t h
      go (err e) s' p b t h = cc

  -- `if x is None: raise e`, and what follows.
  pub require-Returns :
      (o : Option A) (e : E) (f : A → Exec (Session D) E B) (s : Session D)
      → ((a : A) → o ≡ some a → Returns Q (f a s))
      → Returns Q ((require o e >>= f) s)
  require-Returns none e f s k = record { returned = λ b t h. cc }
  require-Returns (some a) e f s k = k a refl

  pub lift-Returns :
      (r : Result E A) (f : A → Exec (Session D) E B) (s : Session D)
      → ((a : A) → r ≡ ok a → Returns Q (f a s))
      → Returns Q ((lift r >>= f) s)
  lift-Returns (ok a) f s k = k a refl
  lift-Returns (err e) f s k = record { returned = λ b t h. cc }

module _ {D E B : Type 0} {Q : B → Session D → Type 0} where
  -- `if b: raise e`, and what follows.
  pub raise_if-Returns :
      (b : Bool) (e : E) (f : Unit {0} → Exec (Session D) E B) (s : Session D)
      → (b ≡ false → Returns Q (f tt s))
      → Returns Q ((raise_if b e >>= f) s)
  raise_if-Returns true e f s k = record { returned = λ b t h. cc }
  raise_if-Returns false e f s k = k refl

  pub ok-Returns : (b : B) (s : Session D) → Q b s → Returns {E = E} Q (ok b, s)
  ok-Returns b s q = record {
    returned = λ a t h. let p : b ≡ a = cc in let e : s ≡ t = cc in rw (sym p, sym e) q;
  }

  pub err-Returns : (e : E) (s : Session D) → Returns Q (err e, s)
  err-Returns e s = record { returned = λ b t h. cc }

  -- A handler that raises again returns nothing.
  pub try-Returns :
      (m : Exec (Session D) E B) (is_app_error : E → Bool) (s : Session D)
      → Returns Q (m s)
      → Returns Q (try_except m (rollback_if is_app_error) s)
  unfolding rollback
  try-Returns m is_app_error s k = record { returned = λ b t h. go (m s).0 (m s).1 refl b t h }
    where
      raises :
          (c : Bool) (e : E) (s' : Session D) (b : B) (t : Session D)
          → (if c then rollback >> raise e else raise e) s' ≡ (ok b, t)
          → Q b t
      raises true e s' b t h = cc
      raises false e s' b t h = cc

      go :
          (r : Result E B) (s' : Session D)
          → m s ≡ (r, s')
          → (b : B) (t : Session D) → handled r (rollback_if is_app_error) s' ≡ (ok b, t)
          → Q b t
      go (ok a) s' p b t h = k.returned b t (p ∙ h)
      go (err e) s' p b t h = raises (is_app_error e) e s' b t h

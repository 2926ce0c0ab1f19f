-- ===== src/Exec/Keeps.antt =====
-- Actions that keep a predicate of the rows, in the open transaction and in the last commit, whether
-- they return or raise; with a rule for each step, which `search` applies to whole methods.
use invora_api.Base.{ℕ, ◌≡◌, Bool, true, false, Option, none, some, if◌then◌else◌}
use invora_api.Result.{Result, ok, err}
use invora_api.Exec.{
  Exec, pure, raise, lift, gets, require, try_except, raise_if, handled, continue, ◌>>=◌,
}
use invora_api.Exec.Session.{Session}
use invora_api.Exec.Transaction.{utc_now, commit, rollback, refuse, rollback_if}

pub record Safe {D : Type 0} (P : D → Type 0) (s : Session D) : Type 0 where
  pub current : P s.current
  pub committed : P s.committed

pub record Keeps {D E A : Type 0} (P : D → Type 0) (m : Exec (Session D) E A) : Type 0 where
  pub keeps : (s : Session D) → Safe P s → Safe P (m s).1

module _ {D E A B : Type 0} {P : D → Type 0} where
  pub bind-Safe :
      (m : Exec (Session D) E A) (f : A → Exec (Session D) E B) (s : Session D)
      → Safe P (m s).1
      → ((a : A) → Keeps P (f a))
      → Safe P ((m >>= f) s).1
  bind-Safe m f s h kf = go (m s).0 (m s).1 h
    where
      go : (r : Result E A) (s : Session D) → Safe P s → Safe P (continue r f s).1
      go (ok a) s h = (kf a).keeps s h
      go (err e) s h = h

  pub bind-Keeps :
      {m : Exec (Session D) E A} {f : A → Exec (Session D) E B}
      → Keeps P m
      → ((a : A) → Keeps P (f a))
      → Keeps P (m >>= f)
  bind-Keeps {m} {f} km kf = record { keeps = λ s h. bind-Safe m f s (km.keeps s h) kf }

module _ {D E A : Type 0} {P : D → Type 0} where
  pub try-Keeps :
      {m : Exec (Session D) E A} {f : E → Exec (Session D) E A}
      → Keeps P m
      → ((e : E) → Keeps P (f e))
      → Keeps P (try_except m f)
  try-Keeps {m} {f} km kf = record { keeps = λ s h. go (m s).0 (m s).1 (km.keeps s h) }
    where
      go : (r : Result E A) (s : Session D) → Safe P s → Safe P (handled r f s).1
      go (ok a) s h = h
      go (err e) s h = (kf e).keeps s h

  pub pure-Keeps : (a : A) → Keeps {E = E} P (pure a)
  pure-Keeps a = record { keeps = λ s h. h }

  pub raise-Keeps : (e : E) → Keeps {A = A} P (raise e)
  raise-Keeps e = record { keeps = λ s h. h }

  pub lift-Keeps : (r : Result E A) → Keeps P (lift r)
  lift-Keeps r = record { keeps = λ s h. h }

  pub gets-Keeps : (f : Session D → A) → Keeps {E = E} P (gets f)
  gets-Keeps f = record { keeps = λ s h. h }

  pub require-Keeps : (o : Option A) (e : E) → Keeps P (require o e)
  require-Keeps none e = record { keeps = λ s h. h }
  require-Keeps (some a) e = record { keeps = λ s h. h }

  pub if-Keeps :
      {m n : Exec (Session D) E A} (b : Bool) → Keeps P m → Keeps P n → Keeps P (if b then m else n)
  if-Keeps true km kn = km
  if-Keeps false km kn = kn

  pub refuse-Keeps : (e : E) → Keeps {A = A} P (refuse e)
  unfolding refuse
  refuse-Keeps e = record {
    keeps = λ s h. record { current = h.committed; committed = h.committed };
  }

  pub rollback_if-Keeps : (t : E → Bool) (e : E) → Keeps {A = A} P (rollback_if t e)
  unfolding rollback
  rollback_if-Keeps t e =
      if-Keeps (t e)
        (record { keeps = λ s h. record { current = h.committed; committed = h.committed } })
        (raise-Keeps e)

module _ {D E : Type 0} {P : D → Type 0} where
  pub raise_if-Keeps : (b : Bool) (e : E) → Keeps {D = D} P (raise_if b e)
  raise_if-Keeps true e = record { keeps = λ s h. h }
  raise_if-Keeps false e = record { keeps = λ s h. h }

  pub utc_now-Keeps : Keeps {E = E} P utc_now
  unfolding utc_now
  utc_now-Keeps = record { keeps = λ s h. record { current = h.current; committed = h.committed } }

  pub commit-Keeps : Keeps {E = E} P commit
  unfolding commit
  commit-Keeps = record { keeps = λ s h. record { current = h.current; committed = h.current } }

  pub rollback-Keeps : Keeps {E = E} P rollback
  unfolding rollback
  rollback-Keeps = record {
    keeps = λ s h. record { current = h.committed; committed = h.committed };
  }

  -- A write to the open transaction.
  pub write-Keeps :
      {A : Type 0} (m : Exec (Session D) E A)
      → ((s : Session D) → P s.current → P ((m s).1).current)
      → ((s : Session D) → ((m s).1).committed ≡ s.committed)
      → Keeps P m
  write-Keeps m writes same = record {
    keeps = λ s h. record { current = writes s h.current; committed = rw (same s) (h.committed) };
  }

-- The session of a request opens on the committed rows, and only its commit outlives it.
abbrev pub open_session : {D : Type 0} → (ℕ → ℕ) → D → Session D
open_session clock db = record { current = db; committed = db; clock = clock; reads = 0 }

-- The rows that a request leaves.
abbrev pub after : {D E A : Type 0} → Exec (Session D) E A → (ℕ → ℕ) → D → D
after m clock db = ((m (open_session clock db)).1).committed

pub after-Keeps :
    {D E A : Type 0} {P : D → Type 0} {m : Exec (Session D) E A} (clock : ℕ → ℕ) (db : D)
    → Keeps P m
    → P db
    → P (after m clock db)
after-Keeps clock db k h =
    (k.keeps (open_session clock db) (record { current = h; committed = h })).committed

-- The rules, for `search`.
pub ruleset keeping = (
  bind-Keeps, try-Keeps, pure-Keeps, raise-Keeps, lift-Keeps, gets-Keeps, require-Keeps, if-Keeps,
  refuse-Keeps, rollback_if-Keeps, raise_if-Keeps, utc_now-Keeps, commit-Keeps, rollback-Keeps,
)

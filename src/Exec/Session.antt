-- ===== src/Exec/Session.antt =====
-- SQLAlchemy's session, as far as the repositories use it: the rows that the open transaction sees,
-- and the rows of the last commit, to which a rollback returns. A flush needs no step of its own,
-- since the rows are written at once. `clock` gives the time of each reading of `utc_now`.
use invora_api.Base.{ℕ, ◌+◌}

pub record Session {ℓ} (D : Type ℓ) : Type ℓ where
  pub current : D
  pub committed : D
  pub clock : ℕ → ℕ
  pub reads : ℕ

module _ {ℓ} {D : Type ℓ} where
  abbrev pub committed_state : Session D → Session D
  committed_state s = record s { committed = s.current }

  abbrev pub rolled_back : Session D → Session D
  rolled_back s = record s { current = s.committed }

  abbrev pub tick : Session D → Session D
  tick s = record s { reads = s.reads + 1 }

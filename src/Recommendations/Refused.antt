-- ===== src/Recommendations/Refused.antt =====
-- What is left of a generation that raises (generate_for_forecast_run of
-- app/modules/recommendations/application/service.py).
use invora_api.Base.{
  ℕ, ◌≡◌, refl, Bool, true, false, ◌&&◌, not, inl, inr, Option, none, some, List, any, all, find,
  count_if, ltb, is_none, Bool-cases, ◌==◌, ℤ,
}
use invora_api.Result.{Result, ok, err}
use invora_api.Exec.{continue, handled, raise_if, require, lift, try_except, ◌>>=◌}
use invora_api.Exec.Session.{Session, tick}
use invora_api.Exec.Transaction.{utc_now, commit, rollback, refuse}
use invora_api.Exec.Keeps.{open_session, after}
use invora_api.Recommendations.Policy.{RecommendationError, validate_regeneration_policy}
use invora_api.Recommendations.Row.{Row}
use invora_api.Recommendations.Tables.{
  Db, Action, is_prediction_of, get_predictions_grouped, group_by_product, inventory_of,
  is_known_product, is_recommendation_of, row_fits, conflicts, delete_recommendations_for_run,
  bulk_create_recommendations,
}
use invora_api.Recommendations.Service.{
  get_forecast_run, store_rows, rollback_any, generate_for_forecast_run,
}
use invora_api.Recommendations.Generation.{groups_of, rows_of, get_run-Returns}

-- An action that, where it raises, leaves these committed rows.
pub record Leaves {A : Type 0} (db : Db) (o : Result RecommendationError A × Session Db)
    : Type 0 where
  pub raised : (e : RecommendationError) (t : Session Db) → o ≡ (err e, t) → t.committed ≡ db

module _ {A B : Type 0} (db : Db) where
  bind-Leaves :
      (m : Action A) (f : A → Action B) (s : Session Db)
      → Leaves db (m s)
      → ((a : A) (s' : Session Db) → m s ≡ (ok a, s') → Leaves db (f a s'))
      → Leaves db ((m >>= f) s)
  bind-Leaves m f s h k = record { raised = λ e t p. go (m s).0 (m s).1 refl e t p }
    where
      go :
          (r : Result RecommendationError A) (s' : Session Db)
          → m s ≡ (r, s')
          → (e : RecommendationError) (t : Session Db) → continue r f s' ≡ (err e, t)
          → t.committed ≡ db
      go (ok a) s' q e t p = (k a s' q).raised e t p
      go (err x) s' q e t p =
          let kept = h.raised x s' q in let same : s' ≡ t = cc in rw same at kept

module _ {A : Type 0} (db : Db) where
  ok-Leaves : (a : A) (s : Session Db) → Leaves db (ok a, s)
  ok-Leaves a s = record { raised = λ e t p. cc }

  err-Leaves :
      (x : RecommendationError) (s : Session Db) → s.committed ≡ db → Leaves {A = A} db (err x, s)
  err-Leaves x s h = record { raised = λ e t p. let q : s ≡ t = cc in rw q at h }

  require-Leaves :
      (o : Option A) (x : RecommendationError) (s : Session Db)
      → s.committed ≡ db
      → Leaves db (require o x s)
  require-Leaves none x s h = err-Leaves x s h
  require-Leaves (some a) x s h = ok-Leaves a s

  try-Leaves :
      (m : Action A) (s : Session Db) → Leaves db (m s) → Leaves db (try_except m rollback_any s)
  unfolding rollback
  try-Leaves m s k = record { raised = λ e t p. go (m s).0 (m s).1 refl e t p }
    where
      go :
          (r : Result RecommendationError A) (s' : Session Db)
          → m s ≡ (r, s')
          → (e : RecommendationError) (t : Session Db) → handled r rollback_any s' ≡ (err e, t)
          → t.committed ≡ db
      go (ok a) s' q e t p = cc
      go (err x) s' q e t p =
          (err-Leaves x (record s' { current = s'.committed }) (k.raised x s' q)).raised e t p

module _ {B : Type 0} (db : Db) where
  -- A check, and what follows it.
  raise_if-Leaves :
      (b : Bool) (x : RecommendationError) (f : Unit {0} → Action B) (s : Session Db)
      → s.committed ≡ db
      → Leaves db (f tt s)
      → Leaves db ((raise_if b x >>= f) s)
  raise_if-Leaves true x f s h k = err-Leaves db x s h
  raise_if-Leaves false x f s h k = k

  lift-Leaves :
      (r : Result RecommendationError Unit) (f : Unit {0} → Action B) (s : Session Db)
      → s.committed ≡ db
      → ((u : Unit) → Leaves db (f u s))
      → Leaves db ((lift r >>= f) s)
  lift-Leaves (ok u) f s h k = k u
  lift-Leaves (err x) f s h k = err-Leaves db x s h

bulk_create-Leaves :
    (user : ℕ) (rows : List Row) (s : Session Db)
    → Leaves s.committed (bulk_create_recommendations user rows s)
unfolding bulk_create_recommendations refuse
bulk_create-Leaves user rows s = elim (Bool-cases (all row_fits rows)) [
  | inr unfit ↦ rw unfit (err-Leaves s.committed _ _ refl)
  | inl fit ↦ elim (Bool-cases (conflicts s.current.recommendations rows)) [
    | inl taken ↦ rw (fit, taken) (err-Leaves s.committed _ _ refl)
    | inr free ↦ rw (fit, free) (ok-Leaves s.committed tt _)
  ]
]

store_rows-Leaves :
    (user run existing : ℕ) (rows : List Row) (s : Session Db)
    → Leaves s.committed (store_rows user run existing rows s)
unfolding store_rows delete_recommendations_for_run commit
store_rows-Leaves user run existing rows s = elim (Bool-cases (ltb 0 existing)) [
  | inl some_there ↦ rw some_there (
      let s₁ = (delete_recommendations_for_run user run s).1 in
      bind-Leaves s.committed (bulk_create_recommendations user rows) _ s₁
        (bulk_create-Leaves user rows s₁) (λ u t made. ok-Leaves s.committed _ _))
  | inr none_there ↦ rw none_there (
      bind-Leaves s.committed (bulk_create_recommendations user rows) _ s
        (bulk_create-Leaves user rows s) (λ u t made. ok-Leaves s.committed _ _))
]

generate-Leaves :
    (user run : ℕ) (refresh : Bool) (s : Session Db)
    → Leaves s.committed (generate_for_forecast_run user run refresh s)
unfolding generate_for_forecast_run get_forecast_run get_predictions_grouped group_by_product
    utc_now
generate-Leaves user run refresh s =
    let found = find (λ r. r.id == run && r.user_id == user) s.current.runs in
    bind-Leaves s.committed (get_forecast_run user run) _ s
      (require-Leaves s.committed found _ s refl)
      (λ r s' got.
        let (of_run, same) = (get_run-Returns user run s).returned r s' got in
        rw (of_run, same)
          (let groups = groups_of user run s.current in
            let existing = count_if (is_recommendation_of user run) s.current.recommendations in
            let rows = rows_of user run (s.clock s.reads) s.current in
            raise_if-Leaves s.committed (not r.is_completed) _ _ s refl (
              raise_if-Leaves s.committed
                (count_if (is_prediction_of user run) s.current.predictions == 0) _ _ s refl
                (lift-Leaves s.committed (validate_regeneration_policy existing refresh) _ s refl
                  (λ u.
                    raise_if-Leaves s.committed
                      (any (λ (g : ℕ × ℤ). is_none (inventory_of user g.0 s.current.items)) groups)
                      _ _ s refl
                      (raise_if-Leaves s.committed
                        (any (λ (g : ℕ × ℤ). not (is_known_product user g.0 s.current.products))
                          groups)
                        _ _ s refl
                        (bind-Leaves s.committed
                          (try_except (store_rows user run existing rows) rollback_any) _ (tick s)
                          (try-Leaves s.committed (store_rows user run existing rows) (tick s)
                            (store_rows-Leaves user run existing rows (tick s)))
                          (λ v t stored. ok-Leaves s.committed _ t))))))))

-- A generation that raises, for whatever reason, has changed no committed row: neither the former
-- recommendations of the run are deleted nor any new one is stored.
pub generate-refused :
    (user run : ℕ) (refresh : Bool) (clock : ℕ → ℕ) (db : Db) (e : RecommendationError)
    → (generate_for_forecast_run user run refresh (open_session clock db)).0 ≡ err e
    → after (generate_for_forecast_run user run refresh) clock db ≡ db
generate-refused user run refresh clock db e h =
    (generate-Leaves user run refresh (open_session clock db)).raised e
      (generate_for_forecast_run user run refresh (open_session clock db)).1 (rw h refl)

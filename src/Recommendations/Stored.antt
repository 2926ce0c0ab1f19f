-- ===== src/Recommendations/Stored.antt =====
-- What storing the rows of a generation leaves (app/modules/recommendations).
use invora_api.Base.{
  ℕ, ◌+◌, ◌≡◌, refl, ap, Bool, not, inl, inr, List, [], ◌∷◌, ◌++◌, map, keep, count_if, ltb, all,
  All, arith, Bool-cases, keep-append, keep-not_counted, keep-keep, keep-not,
}
use invora_api.Exec.Session.{Session}
use invora_api.Exec.Transaction.{commit, refuse}
use invora_api.Exec.Returns.{Returns, ok-Returns, err-Returns, bind-Returns}
use invora_api.Recommendations.Row.{Row}
use invora_api.Recommendations.Policy.{integrity_error, numeric_overflow}
use invora_api.Recommendations.Tables.{
  Recommendation, Db, is_recommendation_of, new_recommendations, bulk_create_recommendations,
  delete_recommendations_for_run, row_fits, conflicts,
}
use invora_api.Recommendations.Service.{store_rows}

append_nil : (xs : List Recommendation) → xs ++ [] ≡ xs
append_nil [] = refl
append_nil (x ∷ xs) = ap (λ ys. x ∷ ys) (append_nil xs)

new-row :
    (user n : ℕ) (rows : List Row)
    → map (λ (r : Recommendation). r.row) (new_recommendations user n rows) ≡ rows
unfolding new_recommendations
new-row user n [] = refl
new-row user n (r ∷ rows) = ap (λ rs. r ∷ rs) (new-row user (n + 1) rows)

module _ (user run : ℕ) where
  abbrev mine : Recommendation → Bool
  mine = is_recommendation_of user run

  keep-new :
      (n : ℕ) (rows : List Row)
      → All (λ (r : Row). r.forecast_run_id ≡ run) rows
      → keep mine (new_recommendations user n rows) ≡ new_recommendations user n rows
  unfolding new_recommendations
  keep-new n [] h = refl
  keep-new n (r ∷ rows) h =
      let e : r.forecast_run_id ≡ run = h.0 in ground (arith, keep-new (n + 1) rows h.1)

  drop-new :
      (n : ℕ) (rows : List Row)
      → All (λ (r : Row). r.forecast_run_id ≡ run) rows
      → keep (λ r. not (mine r)) (new_recommendations user n rows) ≡ []
  unfolding new_recommendations
  drop-new n [] h = refl
  drop-new n (r ∷ rows) h =
      let e : r.forecast_run_id ≡ run = h.0 in ground (arith, drop-new (n + 1) rows h.1)

  -- The rows stand as the recommendations of the user for the run, in their order and in place of the
  -- former ones, and every other recommendation is as it was.
  pub record Replaced (rows : List Row) (before after_it : Db) : Type 0 where
    pub stored : map (λ (r : Recommendation). r.row) (keep mine after_it.recommendations) ≡ rows
    pub others :
        keep (λ r. not (mine r)) after_it.recommendations
        ≡ keep (λ r. not (mine r)) before.recommendations

  replaced :
      (rows : List Row) (n : ℕ) (before after_it : Db)
      → All (λ (r : Row). r.forecast_run_id ≡ run) rows
      → after_it.recommendations
        ≡ keep (λ r. not (mine r)) before.recommendations ++ new_recommendations user n rows
      → Replaced rows before after_it
  replaced rows n before after_it h e =
      let old = keep (λ r. not (mine r)) before.recommendations in
      let new = new_recommendations user n rows in
      record {
        stored =
            rw
              (e, keep-append mine old new, keep-not mine before.recommendations, keep-new n rows h)
              (new-row user n rows);
        others =
            rw
              (
                e,
                keep-append (λ r. not (mine r)) old new,
                keep-keep (λ r. not (mine r)) before.recommendations,
                drop-new n rows h,
              )
              (append_nil old);
      }

  bulk_create-Returns :
      (rows : List Row) (s : Session Db)
      → Returns
          (λ u t.
            t.current.recommendations
            ≡ s.current.recommendations ++ new_recommendations user s.current.next_id rows)
          (bulk_create_recommendations user rows s)
  unfolding bulk_create_recommendations refuse
  bulk_create-Returns rows s = elim (Bool-cases (all row_fits rows)) [
    | inr unfit ↦ rw unfit (err-Returns numeric_overflow _)
    | inl fit ↦ elim (Bool-cases (conflicts s.current.recommendations rows)) [
      | inl taken ↦ rw (fit, taken) (err-Returns integrity_error _)
      | inr free ↦ rw (fit, free) (ok-Returns tt _ refl)
    ]
  ]

  pub store_rows-Returns :
      (rows : List Row) (s : Session Db)
      → All (λ (r : Row). r.forecast_run_id ≡ run) rows
      → Returns
          (λ u t. Replaced rows s.current t.committed)
          (store_rows user run (count_if mine s.current.recommendations) rows s)
  unfolding store_rows delete_recommendations_for_run commit
  store_rows-Returns rows s h =
      elim (Bool-cases (ltb 0 (count_if mine s.current.recommendations))) [
        | inl some_there ↦ rw some_there (
            let s₁ = (delete_recommendations_for_run user run s).1 in
            bind-Returns (bulk_create_recommendations user rows) _ s₁ (λ u t made. ok-Returns _ _ (
              replaced rows s.current.next_id s.current t.current h
                ((bulk_create-Returns rows s₁).returned u t made))))
        | inr none_there ↦
            let zero_there : count_if mine s.current.recommendations ≡ 0 = ground arith in
            rw none_there (
              bind-Returns (bulk_create_recommendations user rows) _ s (λ u t made. ok-Returns _ _ (
                replaced rows s.current.next_id s.current t.current h (
                  rw (keep-not_counted mine s.current.recommendations zero_there)
                    ((bulk_create-Returns rows s).returned u t made)))))
      ]

-- ===== src/Recommendations/Generation.antt =====
-- What generate_for_forecast_run of app/modules/recommendations/application/service.py commits and
-- reports.
use invora_api.Base.{
  ℕ, ℤ, ◌+◌, ◌≡◌, refl, sym, ap, ◌∙◌, Bool, true, false, ◌&&◌, not, inl, inr, Option, some, List,
  [], ◌∷◌, map, keep, any, find, count_if, length, length-map, none, All, is_none, arith, ◌==◌,
  Bool-cases,
}
use invora_api.Result.{ok}
use invora_api.Exec.{require, try_except}
use invora_api.Exec.Session.{Session, tick}
use invora_api.Exec.Transaction.{utc_now}
use invora_api.Exec.Keeps.{open_session, after}
use invora_api.Exec.Returns.{
  Returns, ok-Returns, err-Returns, bind-Returns, lift-Returns, raise_if-Returns, try-Returns,
}
use invora_api.Recommendations.Policy.{forecast_run_not_found, validate_regeneration_policy}
use invora_api.Recommendations.Row.{Row}
use invora_api.Recommendations.Tables.{
  ForecastRun, Prediction, Db, is_prediction_of, demand_of, product_ids, group_by_product,
  get_predictions_grouped, inventory_of, is_known_product, is_recommendation_of,
}
use invora_api.Recommendations.Service.{
  Generated, get_forecast_run, build_rows, generated, store_rows, rollback_any,
  generate_for_forecast_run,
}
use invora_api.Recommendations.Groups.{
  Ascending, product_ids-Ascending, product_ids-any, product_set_lem, Built, build_rows-Built,
  counts-add,
}
use invora_api.Recommendations.Stored.{Replaced, store_rows-Returns}

module _ (user run : ℕ) where
  -- The predictions of the run.
  abbrev pub predicted : Db → List Prediction
  predicted db = keep (is_prediction_of user run) db.predictions

  -- A generation: the rows before and after it, and its report. Its rows are one for each product that
  -- a prediction of the run is about, in ascending order, each built from the sum of the product's
  -- demand and from its stocks; they replace the recommendations of the run and touch no other one;
  -- the report counts the products and the rows, and its risk counts add up.
  pub record Generation (before after_it : Db) (g : Generated) : Type 0 where
    pub now : ℕ
    pub rows : List Row
    pub ascending : Ascending (map (λ (r : Row). r.product_id) rows)
    pub products :
        (k : ℕ)
        → any (λ i. i == k) (map (λ (r : Row). r.product_id) rows)
          ≡ any (λ (p : Prediction). p.product_id == k) (predicted before)
    pub built : All (Built run user before.items (λ i. demand_of i (predicted before)) now) rows
    pub replaced : Replaced user run rows before after_it
    pub of_run : g.forecast_run_id ≡ run
    pub total : g.total_products ≡ length rows
    pub created : g.recommendations_created ≡ length rows
    pub risks :
        g.critical_count + g.high_count + g.medium_count + g.low_count + g.overstocked_count
        ≡ length rows

  abbrev pub groups_of : Db → List (ℕ × ℤ)
  groups_of db = map (λ i. (i, demand_of i (predicted db))) (product_ids (predicted db))

  abbrev pub rows_of : ℕ → Db → List Row
  rows_of now db = build_rows run user db.items now (groups_of db)

  generation :
      (now existing : ℕ) (db after_it : Db)
      → any (λ (g : ℕ × ℤ). is_none (inventory_of user g.0 db.items)) (groups_of db) ≡ false
      → Replaced user run (rows_of now db) db after_it
      → Generation db after_it (generated run (groups_of db) (rows_of now db) existing)
  unfolding generated
  generation now existing db after_it stocked replaced' =
      let demand = λ (i : ℕ). demand_of i (predicted db) in
      let ids = product_ids (predicted db) in
      let rows' = rows_of now db in
      let (of_ids, built', _) = build_rows-Built run user db.items demand now ids stocked in
      let ascends = product_ids-Ascending (predicted db) in
      record {
        now = now;
        rows = rows';
        ascending = rw of_ids ascends;
        products = λ k. rw of_ids (product_ids-any k (predicted db));
        built = built';
        replaced = replaced';
        of_run = refl;
        total =
            ap length (product_set_lem demand ids ascends)
            ∙ (ap length (sym of_ids) ∙ length-map (λ (r : Row). r.product_id) rows');
        created = refl;
        risks = counts-add rows';
      }

find-holds :
    (p : ForecastRun → Bool) (rs : List ForecastRun) (r : ForecastRun)
    → find p rs ≡ some r
    → p r ≡ true
find-holds p [] r h = cc
find-holds p (x ∷ rs) r h = elim (Bool-cases (p x)) [
  | inl holds ↦ let e : x ≡ r = (let k = (rw holds at h) in cc) in rw (sym e) holds
  | inr fails ↦ find-holds p rs r (rw fails at h)
]

pub get_run-Returns :
    (user run : ℕ) (s : Session Db)
    → Returns (λ r t. (r.id ≡ run) × (t ≡ s)) (get_forecast_run user run s)
unfolding get_forecast_run
get_run-Returns user run s = go (find (λ r. r.id == run && r.user_id == user) s.current.runs) refl
  where
    go :
        (o : Option ForecastRun)
        → find (λ r. r.id == run && r.user_id == user) s.current.runs ≡ o
        → Returns
            (λ (r : ForecastRun) t. (r.id ≡ run) × (t ≡ s))
            (require o forecast_run_not_found s)
    go none h = err-Returns forecast_run_not_found s
    go (some r) h =
        let e = find-holds (λ r. r.id == run && r.user_id == user) s.current.runs r h in
        ok-Returns r s (ground arith, refl)

generate-Returns :
    (user run : ℕ) (refresh : Bool) (s : Session Db)
    → Returns
        (λ g t. Generation user run s.current t.committed g)
        (generate_for_forecast_run user run refresh s)
unfolding generate_for_forecast_run get_predictions_grouped group_by_product utc_now
generate-Returns user run refresh s = bind-Returns (get_forecast_run user run) _ s (λ r s' got.
    let (of_run, same) = (get_run-Returns user run s).returned r s' got in
    rw (of_run, same)
      (let groups = groups_of user run s.current in
        let existing = count_if (is_recommendation_of user run) s.current.recommendations in
        let rows = rows_of user run (s.clock s.reads) s.current in
        raise_if-Returns (not r.is_completed) _ _ s (λ completed.
          raise_if-Returns (count_if (is_prediction_of user run) s.current.predictions == 0) _ _ s
            (λ there. lift-Returns (validate_regeneration_policy existing refresh) _ s (λ u allowed.
              raise_if-Returns
                (any (λ (g : ℕ × ℤ). is_none (inventory_of user g.0 s.current.items)) groups) _ _ s
                (λ stocked.
                  raise_if-Returns
                    (any (λ (g : ℕ × ℤ). not (is_known_product user g.0 s.current.products)) groups)
                    _ _ s
                    (λ known.
                      bind-Returns (try_except (store_rows user run existing rows) rollback_any) _
                        (tick s)
                        (λ v t stored. ok-Returns _ _ (
                          generation user run (s.clock s.reads) existing s.current t.committed
                            stocked
                            ((try-Returns (store_rows user run existing rows) (λ _. true) (tick s)
                                (store_rows-Returns user run rows (tick s)
                                  (build_rows-Built run user s.current.items _ _ _
                                    stocked).2)).returned
                              v t stored))))))))))

-- A generation that returns has committed, for each product that a prediction of the run is about, one
-- recommendation, in ascending order of the products, built from the sum of the product's predicted
-- demand and from its stocks; they stand in place of the user's former recommendations for the run, and
-- every other recommendation is as it was. Its report counts the products and the recommendations,
-- which are as many, and its five risk counts add up to them.
pub generate-Generation :
    (user run : ℕ) (refresh : Bool) (clock : ℕ → ℕ) (db : Db) (g : Generated)
    → (generate_for_forecast_run user run refresh (open_session clock db)).0 ≡ ok g
    → Generation user run db (after (generate_for_forecast_run user run refresh) clock db) g
generate-Generation user run refresh clock db g h =
    (generate-Returns user run refresh (open_session clock db)).returned g
      (generate_for_forecast_run user run refresh (open_session clock db)).1 (rw h refl)

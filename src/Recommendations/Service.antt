-- ===== src/Recommendations/Service.antt =====
-- app/modules/recommendations/application/service.py: generating the recommendations of a forecast
-- run, and changing the status of one.
use invora_api.Base.{
  ℕ, ltb, ℤ, Bool, true, false, ◌&&◌, not, Option, none, some, List, [], ◌∷◌, any, find, count_if,
  length, is_none, ◌==◌,
}
use invora_api.Text.{Text}
use invora_api.Exec.{pure, lift, gets, require, try_except, raise_if, ◌>>=◌, ◌>>◌}
use invora_api.Exec.Transaction.{utc_now, commit, rollback_if}
use invora_api.Recommendations.Policy.{
  RecommendationError, forecast_run_not_found, forecast_run_not_completed, predictions_not_found,
  inventory_missing, product_not_found, recommendation_not_found, RiskLevel, low, medium, high,
  critical, overstocked, Status, acknowledged, dismissed, status_name, ensure_status_transition,
  validate_regeneration_policy,
}
use invora_api.Recommendations.Row.{Row, Stocks, build_recommendation_row}
use invora_api.Recommendations.Tables.{
  ForecastRun, InventoryItem, Recommendation, Action, is_prediction_of, get_predictions_grouped,
  insert_id, inventory_of, is_known_product, is_recommendation_of, delete_recommendations_for_run,
  bulk_create_recommendations, update_recommendation, find_recommendation,
}

unfoldable pub get_forecast_run : ℕ → ℕ → Action ForecastRun
get_forecast_run user_id run_id = do
  run ← gets (λ s. find (λ r. r.id == run_id && r.user_id == user_id) s.current.runs)
  require run forecast_run_not_found

abbrev cons_row : ℕ → ℕ → ℤ → ℕ → Option Stocks → List Row → List Row
cons_row run_id product_id demand now none rows = rows
cons_row run_id product_id demand now (some stocks) rows =
    build_recommendation_row run_id product_id demand stocks now ∷ rows

-- A row for each product; every product has its inventory here.
unfoldable pub build_rows : ℕ → ℕ → List InventoryItem → ℕ → List (ℕ × ℤ) → List Row
build_rows run_id user_id items now [] = []
build_rows run_id user_id items now ((product_id, demand) ∷ groups) =
    cons_row run_id product_id demand now (inventory_of user_id product_id items)
      (build_rows run_id user_id items now groups)

abbrev pub has_risk : RiskLevel → Row → Bool
has_risk low r = elim r.risk_level [ low ↦ true | _ ↦ false ]
has_risk medium r = elim r.risk_level [ medium ↦ true | _ ↦ false ]
has_risk high r = elim r.risk_level [ high ↦ true | _ ↦ false ]
has_risk critical r = elim r.risk_level [ critical ↦ true | _ ↦ false ]
has_risk overstocked r = elim r.risk_level [ overstocked ↦ true | _ ↦ false ]

-- What the client is told of a generation.
pub record Generated : Type 0 where
  pub forecast_run_id : ℕ
  pub total_products : ℕ
  pub recommendations_created : ℕ
  pub refreshed : Bool
  pub critical_count : ℕ
  pub high_count : ℕ
  pub medium_count : ℕ
  pub low_count : ℕ
  pub overstocked_count : ℕ

-- `{row["product_id"] for row in prediction_rows}`
unfoldable pub product_set : List (ℕ × ℤ) → List ℕ
product_set [] = []
product_set ((i, demand) ∷ groups) = insert_id i (product_set groups)

-- The payload, with the counts of `_risk_counts`.
unfoldable pub generated : ℕ → List (ℕ × ℤ) → List Row → ℕ → Generated
unfolding product_set
generated run_id groups rows existing_count = record {
  forecast_run_id = run_id;
  total_products = length (product_set groups);
  recommendations_created = length rows;
  refreshed = ltb 0 existing_count;
  critical_count = count_if (has_risk critical) rows;
  high_count = count_if (has_risk high) rows;
  medium_count = count_if (has_risk medium) rows;
  low_count = count_if (has_risk low) rows;
  overstocked_count = count_if (has_risk overstocked) rows;
}

abbrev pub delete_if : Bool → ℕ → ℕ → Action Unit
delete_if true user_id run_id = delete_recommendations_for_run user_id run_id
delete_if false user_id run_id = pure tt

-- The `try` block of `generate_for_forecast_run`, in which the flush may be refused.
unfoldable pub store_rows : ℕ → ℕ → ℕ → List Row → Action Unit
unfolding bulk_create_recommendations delete_recommendations_for_run
store_rows user_id run_id existing_count rows = do
  delete_if (ltb 0 existing_count) user_id run_id
  bulk_create_recommendations user_id rows
  commit

-- `except Exception`, beside `except AppError` with the same body
abbrev pub rollback_any : {A : Type 0} → RecommendationError → Action A
rollback_any e = rollback_if (λ _. true) e

unfoldable pub generate_for_forecast_run : ℕ → ℕ → Bool → Action Generated
unfolding store_rows generated build_rows
generate_for_forecast_run user_id run_id refresh = do
  run ← get_forecast_run user_id run_id
  raise_if (not run.is_completed) forecast_run_not_completed
  prediction_count ← gets (λ s. count_if (is_prediction_of user_id run.id) s.current.predictions)
  raise_if (prediction_count == 0) predictions_not_found
  existing_count ←
      gets (λ s. count_if (is_recommendation_of user_id run.id) s.current.recommendations)
  lift (validate_regeneration_policy existing_count refresh)
  groups ← get_predictions_grouped user_id run.id
  items ← gets (λ s. s.current.items)
  raise_if (any (λ g. is_none (inventory_of user_id g.0 items)) groups) inventory_missing
  products ← gets (λ s. s.current.products)
  raise_if (any (λ g. not (is_known_product user_id g.0 products)) groups) product_not_found
  generated_at ← utc_now
  let rows = build_rows run.id user_id items generated_at groups
  try_except (store_rows user_id run.id existing_count rows) rollback_any
  pure (generated run.id groups rows existing_count)

-- `x if x is not None else now if condition else None`
abbrev stamp : Option ℕ → Bool → ℕ → Option ℕ
stamp (some t) b now = some t
stamp none true now = some now
stamp none false now = none

abbrev is_acknowledged : Status → Bool
is_acknowledged acknowledged = true
is_acknowledged _ = false

abbrev is_dismissed : Status → Bool
is_dismissed dismissed = true
is_dismissed _ = false

-- The recommendation with its new status and times.
unfoldable pub with_status : Recommendation → Status → ℕ → Recommendation
with_status r target now = record r {
  row = record r.row { status = target };
  acknowledged_at = stamp r.acknowledged_at (is_acknowledged target) now;
  dismissed_at = stamp r.dismissed_at (is_dismissed target) now;
}

unfoldable pub update_status : ℕ → ℕ → Text → Action Recommendation
unfolding with_status
update_status user_id recommendation_id status = do
  found ← gets (find_recommendation user_id recommendation_id)
  recommendation ← require found recommendation_not_found
  target ← lift (ensure_status_transition (status_name recommendation.row.status) status)
  now ← utc_now
  try_except (do update_recommendation (with_status recommendation target now); commit; pure tt)
      rollback_any
  updated ← gets (find_recommendation user_id recommendation_id)
  require updated recommendation_not_found

-- ===== src/Recommendations/Tests.antt =====
-- The theorems on the recommendations at concrete stocks and predictions.
use invora_api.Base.{
  none, true, ℕ, ℤ, pos, ◌≡◌, ◌↔◌, ◌⊎◌, ◌≤ℤ◌, ◌<ℤ◌, ◌+ℤ◌, ◌-ℤ◌, ◌+◌, refl, List, [], ◌∷◌, arith,
}
use invora_api.Recommendations.Policy.{critical, high, medium, reorder_now}
use invora_api.Recommendations.Row.{
  Row, Stocks, build_recommendation_row, reorder_covers, reorder_iff_risk, reorder_now_iff,
}
use invora_api.Recommendations.Policy.{integrity_error, validate_regeneration_policy}
use invora_api.Recommendations.Tables.{
  Prediction, InventoryItem, Db, Recommendation, get_predictions_grouped,
  bulk_create_recommendations, delete_recommendations_for_run,
}
use invora_api.Recommendations.Service.{
  Generated, get_forecast_run, store_rows, generate_for_forecast_run,
}
use invora_api.Recommendations.Generation.{Generation, generate-Generation}
use invora_api.Result.{ok, err}
use invora_api.Exec.Keeps.{open_session, after}
use invora_api.Exec.Transaction.{utc_now, commit, refuse, rollback}
use invora_api.Recommendations.Refused.{generate-refused}

abbrev few : Stocks
few = record { current_stock = pos 4000; minimum_stock = pos 1000; safety_stock = pos 2000 }

abbrev few_row : Row
few_row = build_recommendation_row 3 1 (pos 10000) few 50

reorder_covers_example :
    (pos 10000 +ℤ pos 2000 ≤ℤ pos 4000 +ℤ few_row.reorder_quantity)
    × (pos 0 ≤ℤ few_row.reorder_quantity)
    × ((few_row.reorder_quantity ≡ pos 0)
        ⊎ (pos 4000 +ℤ few_row.reorder_quantity ≡ pos 10000 +ℤ pos 2000))
reorder_covers_example = reorder_covers 3 1 (pos 10000) few 50

reorder_iff_risk_example : (pos 0 <ℤ few_row.reorder_quantity) ↔ (
    (few_row.risk_level ≡ critical) ⊎ ((few_row.risk_level ≡ high) ⊎ (few_row.risk_level ≡ medium)))
reorder_iff_risk_example =
    reorder_iff_risk 3 1 (pos 10000) few 50 (omega arith) (omega arith) (omega arith)

reorder_now_iff_example :
    (few_row.recommended_action ≡ reorder_now) ↔ ((pos 0 <ℤ pos 10000) × (pos 4000 <ℤ pos 10000))
reorder_now_iff_example =
    reorder_now_iff 3 1 (pos 10000) few 50 (omega arith) (omega arith) (omega arith)

abbrev predicted : ℕ → ℤ → Prediction
predicted product demand = record {
  user_id = 7;
  forecast_run_id = 3;
  product_id = product;
  predicted_demand = demand;
}

-- Two days of product 1, with one of product 2 between them.
abbrev three_predictions : List Prediction
three_predictions = predicted 1 (pos 4000) ∷ predicted 2 (pos 500) ∷ predicted 1 (pos 6000) ∷ []

abbrev item : ℕ → InventoryItem
item product = record { user_id = 7; product_id = product; stocks = few }

-- Two recommendations: one of the run, and one of another run.
abbrev old_recommendation : ℕ → ℕ → Recommendation
old_recommendation i run = record {
  id = i;
  user_id = 7;
  row = build_recommendation_row run 1 (pos 8000) few 40;
  acknowledged_at = none;
  dismissed_at = none;
}

abbrev shop : Db
shop = record {
  runs = record { id = 3; user_id = 7; is_completed = true } ∷ [];
  predictions = three_predictions;
  items = item 1 ∷ item 2 ∷ [];
  products = record { id = 1; user_id = 7 } ∷ record { id = 2; user_id = 7 } ∷ [];
  recommendations = old_recommendation 1 3 ∷ old_recommendation 2 4 ∷ [];
  next_id = 3;
}

abbrev ticking : ℕ → ℕ
ticking n = n + 50

-- Product 1 is short of 8, and of product 2 there is more than enough.
abbrev report : Generated
report = record {
  forecast_run_id = 3;
  total_products = 2;
  recommendations_created = 2;
  refreshed = true;
  critical_count = 0;
  high_count = 1;
  medium_count = 0;
  low_count = 1;
  overstocked_count = 0;
}

generates : (generate_for_forecast_run 7 3 true (open_session ticking shop)).0 ≡ ok report
unfolding generate_for_forecast_run get_forecast_run get_predictions_grouped
    bulk_create_recommendations delete_recommendations_for_run store_rows build_recommendation_row
    utc_now commit validate_regeneration_policy ◌+ℤ◌ ◌-ℤ◌
generates = refl

generate-Generation_example :
    Generation 7 3 shop (after (generate_for_forecast_run 7 3 true) ticking shop) report
generate-Generation_example = generate-Generation 7 3 true ticking shop report generates

-- Product 2 has a recommendation of the run that belongs to another user.
abbrev taken_shop : Db
taken_shop = record shop {
  recommendations =
      old_recommendation 1 3
      ∷ record (old_recommendation 2 3) {
        user_id = 8;
        row = build_recommendation_row 3 2 (pos 500) few 40;
      }
      ∷ [];
}

refuses :
    (generate_for_forecast_run 7 3 true (open_session ticking taken_shop)).0 ≡ err integrity_error
unfolding generate_for_forecast_run get_forecast_run get_predictions_grouped
    bulk_create_recommendations delete_recommendations_for_run store_rows build_recommendation_row
    utc_now commit refuse rollback validate_regeneration_policy ◌+ℤ◌ ◌-ℤ◌
refuses = refl

generate-refused_example :
    after (generate_for_forecast_run 7 3 true) ticking taken_shop ≡ taken_shop
generate-refused_example = generate-refused 7 3 true ticking taken_shop integrity_error refuses

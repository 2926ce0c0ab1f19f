-- ===== src/Recommendations/Policy.antt =====
-- app/modules/recommendations/domain: the reorder policy, the risk engine, and the rules on statuses.
-- Quantities have the exponent -3, as their columns, and are counts of thousandths; `quantize_stock`
-- leaves those as they are.
use invora_api.Base.{
  ℕ, ltb, ℤ, pos, ◌+ℤ◌, ◌-ℤ◌, leb_ℤ, ltb_ℤ, Bool, true, false, ◌&&◌, not, if◌then◌else◌,
}
use invora_api.Result.{Result, ok, err, ◌>>=◌, reject_if}
use invora_api.Text.{Text, codes, same_text, normalize}

-- The exceptions of app/modules/recommendations/domain/exceptions.py that the module raises, and two of
-- the database, for a unique constraint and for a number that its column does not hold.
pub data RecommendationError : Type 0 where
  forecast_run_not_found forecast_run_not_completed predictions_not_found : RecommendationError
  already_generated not_generated recommendation_not_found inventory_missing : RecommendationError
  product_not_found invalid_risk_level invalid_status invalid_action : RecommendationError
  invalid_status_transition invalid_date_range invalid_sort : RecommendationError
  integrity_error numeric_overflow : RecommendationError

unfoldable pub calculate_required_stock : ℤ → ℤ → ℤ
calculate_required_stock predicted_demand safety_stock = predicted_demand +ℤ safety_stock

unfoldable pub calculate_stock_gap : ℤ → ℤ → ℤ
calculate_stock_gap required_stock current_stock = required_stock -ℤ current_stock

unfoldable pub calculate_reorder_quantity : ℤ → ℤ
calculate_reorder_quantity stock_gap = if leb_ℤ stock_gap (pos 0) then pos 0 else stock_gap

pub data RiskLevel : Type 0 where
  low medium high critical overstocked : RiskLevel

unfoldable pub calculate_risk_level : ℤ → ℤ → ℤ → ℤ → RiskLevel
calculate_risk_level predicted_demand current_stock required_stock reorder_quantity =
    if leb_ℤ current_stock (pos 0) && ltb_ℤ (pos 0) predicted_demand
    then critical
    else if ltb_ℤ (pos 0) predicted_demand && leb_ℤ (required_stock +ℤ required_stock) current_stock
    then overstocked
    else if ltb_ℤ (pos 0) reorder_quantity && ltb_ℤ current_stock predicted_demand
    then high
    else if ltb_ℤ (pos 0) reorder_quantity
        && leb_ℤ predicted_demand current_stock
        && ltb_ℤ current_stock required_stock
    then medium
    else low

pub data RecommendedAction : Type 0 where
  reorder_now monitor no_reorder_needed overstock_review : RecommendedAction

unfoldable pub recommended_action_for_risk : RiskLevel → RecommendedAction
recommended_action_for_risk critical = reorder_now
recommended_action_for_risk high = reorder_now
recommended_action_for_risk medium = monitor
recommended_action_for_risk overstocked = overstock_review
recommended_action_for_risk low = no_reorder_needed

-- The texts of `recommendation_reason`.
pub data Reason : Type 0 where
  depleted below_demand below_required twice_required covered based_on_forecast : Reason

unfoldable pub recommendation_reason : RiskLevel → ℤ → Reason
recommendation_reason critical reorder_quantity = depleted
recommendation_reason high reorder_quantity = below_demand
recommendation_reason medium reorder_quantity = below_required
recommendation_reason overstocked reorder_quantity = twice_required
recommendation_reason low reorder_quantity =
    if leb_ℤ reorder_quantity (pos 0) then covered else based_on_forecast

pub data Status : Type 0 where
  opened acknowledged dismissed : Status

abbrev pub status_name : Status → Text
status_name opened = codes "open"
status_name acknowledged = codes "acknowledged"
status_name dismissed = codes "dismissed"

-- `validate_status` of a text.
unfoldable pub status_of : Text → Result RecommendationError Status
unfolding normalize
status_of value =
    let normalized = normalize value in
    if same_text normalized (codes "open")
    then ok opened
    else if same_text normalized (codes "acknowledged")
    then ok acknowledged
    else if same_text normalized (codes "dismissed")
    then ok dismissed
    else err invalid_status

unfoldable pub allowed : Status → Status → Bool
allowed opened acknowledged = true
allowed opened dismissed = true
allowed acknowledged dismissed = true
allowed _ _ = false

unfoldable pub ensure_status_transition : Text → Text → Result RecommendationError Status
unfolding status_of allowed
ensure_status_transition current_status next_status = do
  current ← status_of current_status
  target ← status_of next_status
  if same_text (status_name current) (status_name target)
      then ok target
      else if allowed current target
      then ok target
      else err invalid_status_transition

unfoldable pub validate_regeneration_policy : ℕ → Bool → Result RecommendationError Unit
validate_regeneration_policy existing_count refresh =
    reject_if (ltb 0 existing_count && not refresh) already_generated

-- ===== src/Recommendations/Row.antt =====
-- `_build_recommendation_row` of app/modules/recommendations/application/service.py, and what its
-- numbers say together.
use invora_api.Base.{
  ℕ, ◌≡◌, ◌↔◌, ◌⊎◌, ℤ, pos, ◌+ℤ◌, ◌-ℤ◌, ◌≤ℤ◌, ◌<ℤ◌, +ℤ_parts, -ℤ_parts, eq_of_parts, arith,
}
use invora_api.Recommendations.Policy.{
  RiskLevel, medium, high, critical, RecommendedAction, reorder_now, Reason, Status, opened,
  calculate_required_stock, calculate_stock_gap, calculate_reorder_quantity, calculate_risk_level,
  recommended_action_for_risk, recommendation_reason,
}

pub record Row : Type 0 where
  pub forecast_run_id : ℕ
  pub product_id : ℕ
  pub predicted_demand : ℤ
  pub current_stock : ℤ
  pub minimum_stock : ℤ
  pub safety_stock : ℤ
  pub required_stock : ℤ
  pub reorder_quantity : ℤ
  pub stock_gap : ℤ
  pub risk_level : RiskLevel
  pub recommended_action : RecommendedAction
  pub reason : Reason
  pub status : Status
  pub generated_at : ℕ

-- The stocks of an inventory item that the row copies.
pub record Stocks : Type 0 where
  pub current_stock : ℤ
  pub minimum_stock : ℤ
  pub safety_stock : ℤ

unfoldable pub build_recommendation_row : ℕ → ℕ → ℤ → Stocks → ℕ → Row
unfolding calculate_required_stock calculate_stock_gap calculate_reorder_quantity
    calculate_risk_level recommended_action_for_risk recommendation_reason
build_recommendation_row forecast_run_id product_id predicted_demand stocks generated_at =
    let required_stock = calculate_required_stock predicted_demand stocks.safety_stock in
    let stock_gap = calculate_stock_gap required_stock stocks.current_stock in
    let reorder_quantity = calculate_reorder_quantity stock_gap in
    let risk_level =
      calculate_risk_level predicted_demand stocks.current_stock required_stock reorder_quantity in
    record {
      forecast_run_id = forecast_run_id;
      product_id = product_id;
      predicted_demand = predicted_demand;
      current_stock = stocks.current_stock;
      minimum_stock = stocks.minimum_stock;
      safety_stock = stocks.safety_stock;
      required_stock = required_stock;
      reorder_quantity = reorder_quantity;
      stock_gap = stock_gap;
      risk_level = risk_level;
      recommended_action = recommended_action_for_risk risk_level;
      reason = recommendation_reason risk_level reorder_quantity;
      status = opened;
      generated_at = generated_at;
    }

module _ (run product : ℕ) (demand : ℤ) (stocks : Stocks) (now : ℕ) where
  abbrev row : Row
  row = build_recommendation_row run product demand stocks now

  -- Ordering the recommended quantity brings the stock to demand plus safety stock, or leaves it
  -- where that is covered already; nothing more is ordered.
  pub reorder_covers :
      (demand +ℤ stocks.safety_stock ≤ℤ stocks.current_stock +ℤ row.reorder_quantity)
      × (pos 0 ≤ℤ row.reorder_quantity)
      × ((row.reorder_quantity ≡ pos 0)
          ⊎ (stocks.current_stock +ℤ row.reorder_quantity ≡ demand +ℤ stocks.safety_stock))
  unfolding build_recommendation_row
  reorder_covers = ground (
    arith,
    +ℤ_parts demand stocks.safety_stock,
    -ℤ_parts (demand +ℤ stocks.safety_stock) stocks.current_stock,
    +ℤ_parts (demand +ℤ stocks.safety_stock) (demand +ℤ stocks.safety_stock),
    +ℤ_parts stocks.current_stock (demand +ℤ stocks.safety_stock -ℤ stocks.current_stock),
    +ℤ_parts stocks.current_stock (pos 0),
    eq_of_parts (stocks.current_stock +ℤ (demand +ℤ stocks.safety_stock -ℤ stocks.current_stock))
        (demand +ℤ stocks.safety_stock),
  )

  module _ (demand_nonneg : pos 0 ≤ℤ demand) (stock_nonneg : pos 0 ≤ℤ stocks.current_stock)
      (safety_nonneg : pos 0 ≤ℤ stocks.safety_stock) where
    -- Where the demand, the stock and the safety stock are not negative, a quantity is to be ordered
    -- exactly when the risk is critical, high or medium.
    pub reorder_iff_risk :
        (pos 0 <ℤ row.reorder_quantity)
        ↔ ((row.risk_level ≡ critical) ⊎ ((row.risk_level ≡ high) ⊎ (row.risk_level ≡ medium)))
    unfolding build_recommendation_row
    reorder_iff_risk = ground (
      arith,
      +ℤ_parts demand stocks.safety_stock,
      -ℤ_parts (demand +ℤ stocks.safety_stock) stocks.current_stock,
      +ℤ_parts (demand +ℤ stocks.safety_stock) (demand +ℤ stocks.safety_stock),
    )

    -- Where the demand, the stock and the safety stock are not negative, the advice is to reorder now
    -- exactly when the demand is positive and the stock is below it.
    pub reorder_now_iff :
        (row.recommended_action ≡ reorder_now)
        ↔ ((pos 0 <ℤ demand) × (stocks.current_stock <ℤ demand))
    unfolding build_recommendation_row
    reorder_now_iff = ground (
      arith,
      +ℤ_parts demand stocks.safety_stock,
      -ℤ_parts (demand +ℤ stocks.safety_stock) stocks.current_stock,
      +ℤ_parts (demand +ℤ stocks.safety_stock) (demand +ℤ stocks.safety_stock),
    )

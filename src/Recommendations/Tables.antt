-- ===== src/Recommendations/Tables.antt =====
-- The tables that app/modules/recommendations reads and writes, with the methods of its
-- infrastructure/repositories.py. Times are numbers.
use invora_api.Base.{
  ℕ, ◌+◌, leb, ltb, ℤ, ◌+ℤ◌, pos, pos_part, neg_part, Bool, false, ◌&&◌, ◌||◌, not, Option, none,
  some, List, [], ◌∷◌, ◌++◌, map, keep, any, all, find, length, is_some, if◌then◌else◌, ◌==◌,
}
use invora_api.Result.{ok}
use invora_api.Exec.{Exec, gets}
use invora_api.Exec.Session.{Session}
use invora_api.Exec.Transaction.{refuse}
use invora_api.Recommendations.Policy.{RecommendationError, numeric_overflow, integrity_error}
use invora_api.Recommendations.Row.{Row, Stocks}

pub record ForecastRun : Type 0 where
  pub id : ℕ
  pub user_id : ℕ
  -- `status == "completed"`
  pub is_completed : Bool

pub record Prediction : Type 0 where
  pub user_id : ℕ
  pub forecast_run_id : ℕ
  pub product_id : ℕ
  pub predicted_demand : ℤ

pub record InventoryItem : Type 0 where
  pub user_id : ℕ
  pub product_id : ℕ
  pub stocks : Stocks

pub record Product : Type 0 where
  pub id : ℕ
  pub user_id : ℕ

pub record Recommendation : Type 0 where
  pub id : ℕ
  pub user_id : ℕ
  pub row : Row
  pub acknowledged_at : Option ℕ
  pub dismissed_at : Option ℕ

pub record Db : Type 0 where
  pub runs : List ForecastRun
  pub predictions : List Prediction
  pub items : List InventoryItem
  pub products : List Product
  pub recommendations : List Recommendation
  pub next_id : ℕ

abbrev pub Action : Type 0 → Type 0
Action A = Exec (Session Db) RecommendationError A

abbrev pub is_prediction_of : ℕ → ℕ → Prediction → Bool
is_prediction_of user_id run_id p = p.user_id == user_id && p.forecast_run_id == run_id

-- The sum of the demand that a list of predictions has for a product.
abbrev pub demand_of : ℕ → List Prediction → ℤ
demand_of i [] = pos 0
demand_of i (x ∷ xs) =
    let rest = demand_of i xs in if x.product_id == i then x.predicted_demand +ℤ rest else rest

-- A set of identifiers, in ascending order.
abbrev pub insert_id : ℕ → List ℕ → List ℕ
insert_id i [] = i ∷ []
insert_id i (j ∷ js) =
    let later = insert_id i js in
    if i == j then j ∷ js else if ltb i j then i ∷ j ∷ js else j ∷ later

unfoldable pub product_ids : List Prediction → List ℕ
product_ids [] = []
product_ids (p ∷ ps) = insert_id p.product_id (product_ids ps)

-- GROUP BY product_id, with the sum of each group, ORDER BY product_id.
unfoldable pub group_by_product : List Prediction → List (ℕ × ℤ)
unfolding product_ids
group_by_product ps = map (λ i. (i, demand_of i ps)) (product_ids ps)

unfoldable pub get_predictions_grouped : ℕ → ℕ → Action (List (ℕ × ℤ))
unfolding group_by_product
get_predictions_grouped user_id run_id =
    gets (λ s. group_by_product (keep (is_prediction_of user_id run_id) s.current.predictions))

abbrev pub stocks_of : Option InventoryItem → Option Stocks
stocks_of none = none
stocks_of (some i) = some i.stocks

-- `inventory_by_product.get(product_id)`
abbrev pub inventory_of : ℕ → ℕ → List InventoryItem → Option Stocks
inventory_of user_id product_id items =
    stocks_of (find (λ i. i.user_id == user_id && i.product_id == product_id) items)

abbrev pub is_known_product : ℕ → ℕ → List Product → Bool
is_known_product user_id product_id products =
    is_some (find (λ p. p.user_id == user_id && p.id == product_id) products)

abbrev pub is_recommendation_of : ℕ → ℕ → Recommendation → Bool
is_recommendation_of user_id run_id r = r.user_id == user_id && r.row.forecast_run_id == run_id

unfoldable pub delete_recommendations_for_run : ℕ → ℕ → Action Unit
delete_recommendations_for_run user_id run_id s = (
  ok tt,
  record s {
    current = record s.current {
      recommendations =
          keep (λ r. not (is_recommendation_of user_id run_id r)) s.current.recommendations;
    };
  },
)

unfoldable pub new_recommendations : ℕ → ℕ → List Row → List Recommendation
new_recommendations user_id n [] = []
new_recommendations user_id n (r ∷ rows) =
    record { id = n; user_id = user_id; row = r; acknowledged_at = none; dismissed_at = none }
    ∷ new_recommendations user_id (n + 1) rows

-- A value that a column of type Numeric(14, 3) holds.
abbrev fits_column : ℤ → Bool
fits_column z =
    not (leb 100_000_000_000_000 (pos_part z)) && not (leb 100_000_000_000_000 (neg_part z))

abbrev pub row_fits : Row → Bool
row_fits r =
    fits_column r.predicted_demand
    && fits_column r.current_stock
    && fits_column r.minimum_stock
    && fits_column r.safety_stock
    && fits_column r.required_stock
    && fits_column r.reorder_quantity
    && fits_column r.stock_gap

-- The unique constraint on forecast_run_id and product_id.
abbrev pub same_slot : Row → Row → Bool
same_slot r q = r.forecast_run_id == q.forecast_run_id && r.product_id == q.product_id

unfoldable pub conflicts : List Recommendation → List Row → Bool
conflicts there [] = false
conflicts there (r ∷ rows) =
    any (λ x. same_slot x.row r) there || any (same_slot r) rows || conflicts there rows

unfoldable pub bulk_create_recommendations : ℕ → List Row → Action Unit
unfolding conflicts new_recommendations
bulk_create_recommendations user_id rows s =
    if not (all row_fits rows)
    then refuse numeric_overflow s
    else if conflicts s.current.recommendations rows
    then refuse integrity_error s
    else (
      ok tt,
      record s {
        current = record s.current {
          recommendations =
              s.current.recommendations ++ new_recommendations user_id s.current.next_id rows;
          next_id = s.current.next_id + length rows;
        };
      },
    )

abbrev pub replace_recommendation : Recommendation → Recommendation → Recommendation
replace_recommendation new r = if r.id == new.id then new else r

unfoldable pub update_recommendation : Recommendation → Action Recommendation
update_recommendation new s = (
  ok new,
  record s {
    current = record s.current {
      recommendations = map (replace_recommendation new) s.current.recommendations;
    };
  },
)

abbrev pub find_recommendation : ℕ → ℕ → Session Db → Option Recommendation
find_recommendation user_id recommendation_id s =
    find (λ r. r.id == recommendation_id && r.user_id == user_id) s.current.recommendations

-- ===== src/Recommendations/Groups.antt =====
-- The products of the predictions of a run, the rows that are built for them, and the counts of rows
-- (app/modules/recommendations).
use invora_api.Base.{
  ℕ, ◌+◌, ◌<◌, ◌≡◌, refl, ap, ◌||◌, true, false, inl, inr, List, [], ◌∷◌, map, any, All, count_if,
  length, ℤ, is_none, some, arith, ◌==◌, Option-cases,
}
use invora_api.Recommendations.Policy.{low, medium, high, critical, overstocked}
use invora_api.Recommendations.Row.{Row, Stocks, build_recommendation_row}
use invora_api.Recommendations.Tables.{
  Prediction, InventoryItem, insert_id, product_ids, inventory_of,
}
use invora_api.Recommendations.Service.{build_rows, has_risk, product_set}

-- Identifiers that ascend, so that each is there once.
abbrev pub Above : ℕ → List ℕ → Type 0
Above n [] = Unit
Above n (i ∷ is) = (n < i) × Above n is

abbrev pub Ascending : List ℕ → Type 0
Ascending [] = Unit
Ascending (i ∷ is) = Above i is × Ascending is

Above-weaken : (m n : ℕ) (is : List ℕ) → m < n → Above n is → Above m is
Above-weaken m n [] lt h = tt
Above-weaken m n (i ∷ is) lt h = (omega arith, Above-weaken m n is lt h.1)

insert_id-Above : (n i : ℕ) (is : List ℕ) → n < i → Above n is → Above n (insert_id i is)
insert_id-Above n i [] lt h = (lt, tt)
insert_id-Above n i (j ∷ is) lt h = ground (arith, insert_id-Above n i is lt h.1)

insert_id-Ascending : (i : ℕ) (is : List ℕ) → Ascending is → Ascending (insert_id i is)
insert_id-Ascending i [] h = (tt, tt)
insert_id-Ascending i (j ∷ is) h =
    ground (arith, insert_id-Ascending i is h.1, insert_id-Above j i is, Above-weaken i j is)

pub product_ids-Ascending : (ps : List Prediction) → Ascending (product_ids ps)
unfolding product_ids
product_ids-Ascending [] = tt
product_ids-Ascending (p ∷ ps) =
    insert_id-Ascending p.product_id (product_ids ps) (product_ids-Ascending ps)

insert_id-any :
    (k i : ℕ) (is : List ℕ) → any (λ j. j == k) (insert_id i is) ≡ (i == k || any (λ j. j == k) is)
insert_id-any k i [] = refl
insert_id-any k i (j ∷ is) = ground (arith, insert_id-any k i is)

-- The products are those that some prediction is about.
pub product_ids-any :
    (k : ℕ) (ps : List Prediction)
    → any (λ i. i == k) (product_ids ps) ≡ any (λ (p : Prediction). p.product_id == k) ps
unfolding product_ids
product_ids-any k [] = refl
product_ids-any k (p ∷ ps) =
    rw (insert_id-any k p.product_id (product_ids ps), product_ids-any k ps) refl

insert_id-first : (i : ℕ) (is : List ℕ) → Above i is → insert_id i is ≡ i ∷ is
insert_id-first i [] h = refl
insert_id-first i (j ∷ is) h = ground arith

-- The set of the products of the groups has one for each group.
pub product_set_lem :
    (demand : ℕ → ℤ) (is : List ℕ) → Ascending is → product_set (map (λ i. (i, demand i)) is) ≡ is
unfolding product_set
product_set_lem demand [] h = refl
product_set_lem demand (i ∷ is) h = rw (product_set_lem demand is h.1) (insert_id-first i is h.0)

-- A row that is built for a product from its stocks.
pub record Built (run user : ℕ) (items : List InventoryItem) (demand : ℕ → ℤ) (now : ℕ) (r : Row)
    : Type 0 where
  pub stocks : Stocks
  pub in_stock : inventory_of user r.product_id items ≡ some stocks
  pub built : r ≡ build_recommendation_row run r.product_id (demand r.product_id) stocks now

module _ (run user : ℕ) (items : List InventoryItem) (demand : ℕ → ℤ) (now : ℕ) where
  -- Where every product has its inventory, each has its row, in the order of the groups.
  pub build_rows-Built :
      (is : List ℕ)
      → any (λ (g : ℕ × ℤ). is_none (inventory_of user g.0 items)) (map (λ i. (i, demand i)) is)
        ≡ false
      → let rows = build_rows run user items now (map (λ i. (i, demand i)) is) in
        (map (λ (r : Row). r.product_id) rows ≡ is)
        × All (Built run user items demand now) rows
        × All (λ (r : Row). r.forecast_run_id ≡ run) rows
  unfolding build_rows build_recommendation_row
  build_rows-Built [] h = (refl, tt, tt)
  build_rows-Built (i ∷ is) h = elim (Option-cases (inventory_of user i items)) [
    | inl missing ↦ let e : is_none (inventory_of user i items) ≡ true = rw missing in ground arith
    | inr (stocks, e) ↦
        let later = build_rows-Built is (ground arith) in
        rw e (
          ap (λ js. i ∷ js) later.0,
          (record { stocks = stocks; in_stock = e; built = refl }, later.1),
          (refl, later.2),
        )
  ]

-- The five counts of the risks add up.
pub counts-add :
    (rows : List Row)
    → count_if (has_risk critical) rows
        + count_if (has_risk high) rows
        + count_if (has_risk medium) rows
        + count_if (has_risk low) rows
        + count_if (has_risk overstocked) rows
      ≡ length rows
counts-add [] = refl
counts-add (r ∷ rows) = ground (arith, counts-add rows)

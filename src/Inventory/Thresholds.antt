-- ===== src/Inventory/Thresholds.antt =====
-- Changing an item's thresholds or its active flag: what `normalize_item_update_values` lets through
-- leaves the stock of the item alone.
use invora_api.Base.{◌≡◌, refl, ◌∙◌, List, [], ◌∷◌, arith}
use invora_api.Result.{ok, bind-eq-ok}
use invora_api.Text.{Text}
use invora_api.Inventory.Rows.{
  Item, ItemUpdate, set_field, set_fields, set_current_stock, set_minimum_stock, set_safety_stock,
  set_is_active,
}
use invora_api.Inventory.Values.{
  FieldValue, normalize_field, normalize_fields, normalize_item_update_values,
}

-- One accepted entry sets another field than the stock.
normalize_field-keeps :
    (field : Text) (value : FieldValue) (u : ItemUpdate) (i : Item)
    → normalize_field field value ≡ ok u
    → (set_field u i).current_stock ≡ i.current_stock
normalize_field-keeps field value (set_current_stock z) i h = ground arith
normalize_field-keeps field value (set_minimum_stock z) i h = refl
normalize_field-keeps field value (set_safety_stock z) i h = refl
normalize_field-keeps field value (set_is_active b) i h = refl

normalize_fields-keeps :
    (values : List (Text × FieldValue)) (us : List ItemUpdate) (i : Item)
    → normalize_fields values ≡ ok us
    → (set_fields us i).current_stock ≡ i.current_stock
unfolding normalize_fields
normalize_fields-keeps [] [] i h = refl
normalize_fields-keeps [] (u ∷ us) i h = cc
normalize_fields-keeps ((field, value) ∷ rest) us i h =
    let (u, e, h₁) = bind-eq-ok (normalize_field field value) _ h in
    let (vs, e₂, h₂) = bind-eq-ok (normalize_fields rest) _ h₁ in
    let same : us ≡ u ∷ vs = cc in
    rw same
      (normalize_fields-keeps rest vs (set_field u i) e₂ ∙ normalize_field-keeps field value u i e)

pub normalize_item_update_values-keeps :
    (values : List (Text × FieldValue)) (us : List ItemUpdate) (i : Item)
    → normalize_item_update_values values ≡ ok us
    → (set_fields us i).current_stock ≡ i.current_stock
unfolding normalize_item_update_values
normalize_item_update_values-keeps values us i h =
    let (vs, e, h₁) = bind-eq-ok (normalize_fields values) _ h in
    let same : us ≡ vs = ground arith in rw same (normalize_fields-keeps values vs i e)

pub set_fields-id : (us : List ItemUpdate) (i : Item) → (set_fields us i).id ≡ i.id
set_fields-id [] i = refl
set_fields-id (set_current_stock z ∷ us) i = set_fields-id us (set_field (set_current_stock z) i)
set_fields-id (set_minimum_stock z ∷ us) i = set_fields-id us (set_field (set_minimum_stock z) i)
set_fields-id (set_safety_stock z ∷ us) i = set_fields-id us (set_field (set_safety_stock z) i)
set_fields-id (set_is_active b ∷ us) i = set_fields-id us (set_field (set_is_active b) i)

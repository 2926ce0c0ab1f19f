-- ===== src/Sales/Totals.antt =====
-- The total of a transaction that is changed, and of one that is created.
use invora_api.Base.{ℤ, ◌≡◌, refl, ap, sym, ◌∙◌, true, false, Option, none, some}
use invora_api.Result.{ok, bind-eq-ok}
use invora_api.Sales.Row.{normalize_optional_text}
use invora_api.Sales.Transactions.{
  Amount, null, decimal, text, validate_quantity, validate_money, calculate_total_amount,
  CreateValues, Values, UpdateValues, normalize_transaction_create_values,
  normalize_transaction_update_values,
}

-- An update that sets the quantity alone.
abbrev pub set_quantity : Amount → UpdateValues
set_quantity q = record {
  product_id = none;
  sale_date = none;
  quantity = some q;
  unit_price = none;
  total_amount = none;
  customer_name = none;
  channel = none;
  notes = none;
}

recalculated :
    (q : ℤ) (price total : Option ℤ)
    → calculate_total_amount q price none false ≡ calculate_total_amount q price total true
unfolding calculate_total_amount
recalculated q none total = refl
recalculated q (some p) none = refl
recalculated q (some p) (some t) = refl

missing : (a : Amount) (g : Option ℤ) → a ≡ null → validate_money a ≡ ok g → none ≡ g
unfolding validate_money
missing null g e h = cc
missing (decimal d) g e h = cc
missing (text t) g e h = cc

abbrev created : CreateValues → ℤ → Option ℤ → Option ℤ → Values
created c quantity unit_price total_amount = record {
  product_id = c.product_id;
  sale_date = c.sale_date;
  quantity = quantity;
  unit_price = unit_price;
  total_amount = total_amount;
  customer_name = normalize_optional_text c.customer_name 255;
  channel = normalize_optional_text c.channel 64;
  notes = normalize_optional_text c.notes 1000;
}

updated :
    (c : CreateValues) (q : Amount) (q₁ q₂ : ℤ) (price t₁ t₂ : Option ℤ)
    → validate_quantity q ≡ ok q₂
    → calculate_total_amount q₂ price t₁ true ≡ ok t₂
    → normalize_transaction_update_values (set_quantity q) (created c q₁ price t₁)
      ≡ ok (created c q₂ price t₂)
unfolding normalize_transaction_update_values
updated c q q₁ q₂ price t₁ t₂ h k = rw (h, k) refl

-- Changing the quantity of a transaction that was created without a total of its own gives the values
-- that creating it with the new quantity gives, the total included.
pub update_quantity-create :
    (c : CreateValues) (q : Amount) (v w : Values)
    → c.total_amount ≡ null
    → normalize_transaction_create_values c ≡ ok v
    → normalize_transaction_create_values (record c { quantity = q }) ≡ ok w
    → normalize_transaction_update_values (set_quantity q) v ≡ ok w
unfolding normalize_transaction_create_values
update_quantity-create c q v w no_total h k =
    let (q₁, _, h₁) = bind-eq-ok (validate_quantity c.quantity) _ h in
    let (p₁, e₁, h₂) = bind-eq-ok (validate_money c.unit_price) _ h₁ in
    let (g₁, _, h₃) = bind-eq-ok (validate_money c.total_amount) _ h₂ in
    let (t₁, _, h₄) = bind-eq-ok (calculate_total_amount q₁ p₁ g₁ false) _ h₃ in
    let (q₂, f₀, k₁) = bind-eq-ok (validate_quantity q) _ k in
    let (p₂, f₁, k₂) = bind-eq-ok (validate_money c.unit_price) _ k₁ in
    let (g₂, f₂, k₃) = bind-eq-ok (validate_money c.total_amount) _ k₂ in
    let (t₂, f₃, k₄) = bind-eq-ok (calculate_total_amount q₂ p₂ g₂ false) _ k₃ in
    let same : created c q₁ p₁ t₁ ≡ v = cc in
    let same' : created c q₂ p₂ t₂ ≡ w = cc in
    let price : p₁ ≡ p₂ = cc in
    let unset : none ≡ g₂ = missing c.total_amount g₂ no_total f₂ in
    let total : calculate_total_amount q₂ p₂ t₁ true ≡ ok t₂ =
      sym (recalculated q₂ p₂ t₁) ∙ ap (λ g. calculate_total_amount q₂ p₂ g false) unset ∙ f₃ in
    ap (normalize_transaction_update_values (set_quantity q)) (sym same)
    ∙ updated c q q₁ q₂ p₁ t₁ t₂ f₀ (ap (λ p. calculate_total_amount q₂ p t₁ true) price ∙ total)
    ∙ ap (λ p. ok (created c q₂ p t₂)) price
    ∙ ap ok same'

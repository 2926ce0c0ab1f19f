-- ===== src/Inventory/Steps.antt =====
-- What each operation of the inventory service leaves behind, whether it returns or raises.
use mathlib.Core.Path.{subst}
use invora_api.Base.{
  ℕ, ◌≡◌, refl, ◌∙◌, ap, inl, inr, List, [], ◌∷◌, ℤ, pos, ◌+ℤ◌, ◌≤ℤ◌, arith, Bool-cases,
}
use invora_api.Result.{Result}
use invora_api.Exec.Rules.{bind-post, try-post, lift-post}
use invora_api.Exec.{try_except}
use invora_api.Exec.Session.{Session}
use invora_api.Inventory.Quantity.{InventoryError, is_app_error}
use invora_api.Inventory.Movement.{
  MovementType, movement_name, calculate_movement, validate_public_movement_type,
}
use invora_api.Inventory.Effects.{calculate_movement-balance}
use invora_api.Inventory.Rows.{
  Item, Movement, Db, Action, ItemUpdate, set_fields, set_current_stock, update_inventory_item,
  create_stock_movement, rollback, commit,
}
use invora_api.Text.{Text}
use invora_api.Inventory.Values.{FieldValue, normalize_item_update_values}
use invora_api.Inventory.Thresholds.{set_fields-id, normalize_item_update_values-keeps}
use invora_api.Inventory.Writes.{
  Reverted, update_ok, update_err, movement_ok, movement_err, or_now_ok, or_now_err, get_product_ok,
  get_product_err, get_item_ok, get_item_err,
}
use invora_api.Inventory.Accounting.{Accounted, IsBalanced, All-find}
use invora_api.Inventory.Balanced.{with_item, with_movement, with_item-IsBalanced, moved-IsBalanced}
use invora_api.Inventory.Service.{
  MovementRequest, update_inventory_thresholds, store_thresholds, store_movement, movement_row,
  rollback_app_error, move_stock, get_product, get_item, or_now,
}

-- The open transaction and the last commit are both balanced.
pub record Sound (s : Session Db) : Type 0 where
  pub current : IsBalanced s.current
  pub committed : IsBalanced s.committed

pub Sound-of :
    (s : Session Db) {c k : Db}
    → s.current ≡ c
    → s.committed ≡ k
    → IsBalanced c
    → IsBalanced k
    → Sound s
Sound-of s e₁ e₂ b₁ b₂ = record { current = rw e₁ b₁; committed = rw e₂ b₂ }

pub Reverted-Sound : {s t : Session Db} → Reverted s t → Sound s → Sound t
Reverted-Sound {s} {t} r h = Sound-of t r.current r.committed h.committed h.committed

-- Both ways in which the handler ends leave balanced rows.
rollback_app_error-Sound :
    (A : Type 0) (x : InventoryError) (s : Session Db)
    → Sound s
    → Sound (rollback_app_error {A = A} x s).1
unfolding rollback
rollback_app_error-Sound A x s h = elim (Bool-cases (is_app_error x)) [
  | inl app ↦ rw app (record { current = h.committed; committed = h.committed })
  | inr other ↦ rw other h
]

-- A `try` block that leaves balanced rows does so behind its handler too.
pub try_rollback-Sound :
    (A : Type 0) (m : Action A) (s : Session Db)
    → Sound (m s).1
    → Sound (try_except m rollback_app_error s).1
try_rollback-Sound A m s kept =
    try-post (λ o. Sound o.1) m rollback_app_error s
      (λ a s₁ e₁. subst (λ (o : Result InventoryError A × Session Db). Sound o.1) e₁ kept)
      (λ x s₁ e₁.
        rollback_app_error-Sound A x s₁
          (subst (λ (o : Result InventoryError A × Session Db). Sound o.1) e₁ kept))

pub commit-Sound : (s : Session Db) → IsBalanced s.current → Sound (commit s).1
unfolding commit
commit-Sound s b = record { current = b; committed = b }

module _ (user product : ℕ) (r : MovementRequest) (m : MovementType) (old : Item) (delta after : ℤ)
    (s : Session Db) (adds : after ≡ old.current_stock +ℤ delta) (nonneg : pos 0 ≤ℤ after)
    (ho : Accounted s.current old) (h : Sound s) where
  moved_rows :
      (now : ℕ) (new : Item)
      → new ≡ record old { current_stock = after; updated_at = s.clock s.reads }
      → IsBalanced (
          with_movement
            (movement_row user product r m old delta after now)
            (with_item new s.current))
  unfolding movement_row
  moved_rows now new e =
      moved-IsBalanced s.current (movement_row user product r m old delta after now) new old
        (ground arith) refl (ground arith) (ground arith) ho h.current

  store_movement-Sound : Sound (store_movement user product r m old (delta, after) s).1
  unfolding store_movement commit
  store_movement-Sound =
      bind-post (λ o. Sound o.1) (update_inventory_item old (set_current_stock after ∷ [])) _ s
        (λ new s₁ e₁.
          let (cur₁, com₁, is_new) = update_ok old (set_current_stock after ∷ []) s s₁ e₁ in
          bind-post (λ o. Sound o.1) (or_now r.occurred_at) _ s₁
            (λ now s₂ e₂.
              let same = or_now_ok r.occurred_at s₁ s₂ e₂ in
              bind-post (λ o. Sound o.1)
                (create_stock_movement (movement_row user product r m old delta after now)) _ s₂
                (λ row s₃ e₃.
                  let (cur₃, com₃, is_row) = movement_ok _ s₂ s₃ e₃ in
                  commit-Sound s₃ (rw (cur₃, same.current, cur₁) (moved_rows now new is_new)))
                (λ x s₃ e₃.
                  let back = movement_err _ s₂ s₃ e₃ in
                  Sound-of s₃ (back.current ∙ same.committed ∙ com₁)
                    (back.committed ∙ same.committed ∙ com₁) h.committed h.committed))
            (λ x s₂ e₂.
              let back = or_now_err r.occurred_at s₁ s₂ e₂ in
              Sound-of s₂ (back.current ∙ com₁) (back.committed ∙ com₁) h.committed h.committed))
        (λ x s₁ e₁. Reverted-Sound (update_err old _ s s₁ e₁) h)

-- A movement request, accepted or refused at any point, leaves balanced rows.
pub move_stock-Sound :
    (user product : ℕ) (r : MovementRequest) (s : Session Db)
    → Sound s
    → Sound (move_stock user product r s).1
unfolding move_stock
move_stock-Sound user product r s h =
    bind-post (λ o. Sound o.1) (get_product user product) _ s
      (λ p s₁ e₁. rw (get_product_ok user product s s₁ e₁) (
        lift-post (λ o. Sound o.1) (validate_public_movement_type r.type_text) _ s
          (λ m _.
            bind-post (λ o. Sound o.1) (get_item user product) _ s
              (λ item s₂ e₂.
                let (same, found) = get_item_ok user product s s₂ e₂ in
                rw same (
                  lift-post (λ o. Sound o.1)
                    (calculate_movement (movement_name m) item.current_stock r.quantity) _ s
                    (λ effect e₃.
                      let (adds, nonneg) =
                        calculate_movement-balance (movement_name m) item.current_stock r.quantity
                          effect.0 effect.1 e₃ in
                      try_rollback-Sound Movement (store_movement user product r m item effect) s (
                        store_movement-Sound user product r m item effect.0 effect.1 s adds nonneg
                          (All-find (Accounted s.current) _ s.current.items h.current.items found)
                          h))
                    (λ x _. h)))
              (λ x s₂ e₂. rw (get_item_err user product s s₂ e₂).0 h))
          (λ x _. h)))
      (λ x s₁ e₁. rw (get_product_err user product s s₁ e₁).0 h)

module _ (item : Item) (us : List ItemUpdate) (s : Session Db) (h : Sound s) where
  store_thresholds-Sound :
      (set_fields us item).current_stock ≡ item.current_stock
      → Accounted s.current item
      → Sound (store_thresholds item us s).1
  unfolding store_thresholds commit
  store_thresholds-Sound keeps ho =
      bind-post (λ o. Sound o.1) (update_inventory_item item us) _ s
        (λ new s₁ e₁.
          let (cur₁, com₁, is_new) = update_ok item us s s₁ e₁ in
          let same_id : new.id ≡ item.id = ap (λ (i : Item). i.id) is_new ∙ set_fields-id us item in
          let same_stock : new.current_stock ≡ item.current_stock =
            ap (λ (i : Item). i.current_stock) is_new ∙ keeps in
          let accounted : Accounted s.current new = record {
            known = rw same_id ho.known;
            nonnegative = rw same_stock ho.nonnegative;
            adds_up = rw (same_id, same_stock) ho.adds_up;
          } in
          commit-Sound s₁ (rw cur₁ (with_item-IsBalanced s.current new accounted h.current)))
        (λ x s₁ e₁. Reverted-Sound (update_err item us s s₁ e₁) h)

-- So does a change of thresholds.
pub update_inventory_thresholds-Sound :
    (user product : ℕ) (values : List (Text × FieldValue)) (s : Session Db)
    → Sound s
    → Sound (update_inventory_thresholds user product values s).1
unfolding update_inventory_thresholds commit
update_inventory_thresholds-Sound user product values s h =
    bind-post (λ o. Sound o.1) (get_product user product) _ s
      (λ p s₁ e₁. rw (get_product_ok user product s s₁ e₁) (
        bind-post (λ o. Sound o.1) (get_item user product) _ s
          (λ item s₂ e₂.
            let (same, found) = get_item_ok user product s s₂ e₂ in
            rw same (
              lift-post (λ o. Sound o.1) (normalize_item_update_values values) _ s
                (λ us e₃. try_rollback-Sound Item (store_thresholds item us) s (
                  store_thresholds-Sound item us s h
                    (normalize_item_update_values-keeps values us item e₃)
                    (All-find (Accounted s.current) _ s.current.items h.current.items found)))
                (λ x _. h)))
          (λ x s₂ e₂. rw (get_item_err user product s s₂ e₂).0 h)))
      (λ x s₁ e₁. rw (get_product_err user product s s₁ e₁).0 h)

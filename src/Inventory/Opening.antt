-- ===== src/Inventory/Opening.antt =====
-- A new inventory item, with or without an opening stock, leaves balanced rows.
use mathlib.Core.Path.{subst}
use invora_api.Base.{
  ℕ, ◌≡◌, refl, ◌∙◌, inl, inr, pos, ◌≤ℤ◌, ltb_ℤ, arith, Bool-cases, is_some, find,
}
use invora_api.Result.{Result, ok, err, bind-eq-ok}
use invora_api.Exec.Rules.{bind-post, lift-post, raise_if-post}
use invora_api.Exec.Session.{Session}
use invora_api.Inventory.Quantity.{InventoryError, item_already_exists, normalize_stock_quantity}
use invora_api.Inventory.Bounds.{normalize_stock_quantity-bounds}
use invora_api.Inventory.Rows.{
  Item, ItemValues, Db, create_inventory_item, create_stock_movement, commit, add_item, is_item_of,
  get_inventory_item_by_product_for_user,
}
use invora_api.Inventory.Values.{CreateValues, normalize_item_create_values, or_zero}
use invora_api.Inventory.Accounting.{IsBalanced}
use invora_api.Inventory.Balanced.{added-IsBalanced, opened-IsBalanced}
use invora_api.Inventory.Writes.{
  create_ok, create_err, movement_ok, movement_err, or_now_ok, or_now_err, get_product_ok,
  get_product_err,
}
use invora_api.Inventory.Service.{
  or_now, opening_row, record_opening, store_item, create_item, get_product,
}
use invora_api.Inventory.Steps.{Sound, Sound-of, Reverted-Sound, commit-Sound, try_rollback-Sound}

-- The stock of a new item is not negative.
opening_nonneg :
    (v : CreateValues) (n : ItemValues)
    → normalize_item_create_values v ≡ ok n
    → pos 0 ≤ℤ n.current_stock
unfolding normalize_item_create_values
opening_nonneg v n h =
    let (q, e, h₁) = bind-eq-ok (normalize_stock_quantity (or_zero v.opening_stock)) _ h in
    ground (arith, normalize_stock_quantity-bounds (or_zero v.opening_stock) q e)

-- How a step between two writes of one transaction ends: with balanced rows that are not committed
-- yet, or with an exception and sound rows.
abbrev Ready : {A : Type 0} → Db → Result InventoryError A × Session Db → Type 0
Ready kept (ok _, s) = IsBalanced s.current × (s.committed ≡ kept)
Ready kept (err _, s) = Sound s

module _ (user product : ℕ) (v : CreateValues) (s s₁ : Session Db) (h : Sound s) (i : Item)
    (nonneg : pos 0 ≤ℤ i.current_stock) (rows : s₁.current ≡ add_item i s.current)
    (before : s₁.committed ≡ s.committed) (fresh : i.id ≡ s.current.next_id) where
  -- With the movement of the opening stock where there is one, the rows are balanced again.
  record_opening-Ready : Ready s.committed (record_opening user product v i s₁)
  unfolding record_opening
  record_opening-Ready = elim (Bool-cases (ltb_ℤ (pos 0) i.current_stock)) [
    | inl some_stock ↦ rw some_stock (
        bind-post (Ready s.committed) (or_now v.occurred_at) _ s₁
          (λ now s₂ e₂.
            let same = or_now_ok v.occurred_at s₁ s₂ e₂ in
            bind-post (Ready s.committed) (create_stock_movement (opening_row user product v i now))
              _ s₂
              (λ row s₃ e₃.
                let (rows₃, before₃, _) = movement_ok _ s₂ s₃ e₃ in
                (
                  rw (rows₃, same.current, rows)
                      (unfold opening_row in
                        opened-IsBalanced s.current i fresh nonneg
                          (opening_row user product v i now) refl refl h.current),
                  before₃ ∙ same.committed ∙ before,
                ))
              (λ x s₃ e₃.
                let back = movement_err _ s₂ s₃ e₃ in
                Sound-of s₃ (back.current ∙ same.committed ∙ before)
                  (back.committed ∙ same.committed ∙ before) h.committed h.committed))
          (λ x s₂ e₂.
            let back = or_now_err v.occurred_at s₁ s₂ e₂ in
            Sound-of s₂ (back.current ∙ before) (back.committed ∙ before) h.committed h.committed))
    | inr no_stock ↦
        rw no_stock
          (rw rows (added-IsBalanced s.current i fresh nonneg (ground arith) h.current), before)
  ]

module _ (user product : ℕ) (v : CreateValues) (n : ItemValues) (s : Session Db) (h : Sound s)
    (nonneg : pos 0 ≤ℤ n.current_stock) where
  store_item-Sound : Sound (store_item user product v n s).1
  unfolding store_item commit
  store_item-Sound =
      bind-post (λ o. Sound o.1) (create_inventory_item user product n) _ s
        (λ i s₁ e₁.
          let (rows, before, fresh, stock, _) = create_ok user product n s s₁ e₁ in
          let ready =
            record_opening-Ready user product v s s₁ h i (rw stock nonneg) rows before fresh in
          bind-post (λ o. Sound o.1) (record_opening user product v i) _ s₁
            (λ _ s₂ e₂.
              commit-Sound s₂
                (subst (λ (o : Result InventoryError Unit × Session Db). Ready s.committed o) e₂
                  ready).0)
            (λ x s₂ e₂.
              subst (λ (o : Result InventoryError Unit × Session Db). Ready s.committed o) e₂
                ready))
        (λ x s₁ e₁. Reverted-Sound (create_err user product n s s₁ e₁) h)

-- A request to create an item, accepted or refused at any point, leaves balanced rows.
pub create_item-Sound :
    (user product : ℕ) (v : CreateValues) (s : Session Db)
    → Sound s
    → Sound (create_item user product v s).1
unfolding create_item get_inventory_item_by_product_for_user
create_item-Sound user product v s h =
    bind-post (λ o. Sound o.1) (get_product user product) _ s
      (λ p s₁ e₁. rw (get_product_ok user product s s₁ e₁) (
        raise_if-post (λ o. Sound o.1) (is_some (find (is_item_of user product) s.current.items))
          item_already_exists _ s
          (λ _.
            lift-post (λ o. Sound o.1) (normalize_item_create_values v) _ s
              (λ n e.
                try_rollback-Sound Item (store_item user product v n) s
                  (store_item-Sound user product v n s h (opening_nonneg v n e)))
              (λ x _. h))
          (λ _. h)))
      (λ x s₁ e₁. rw (get_product_err user product s s₁ e₁).0 h)

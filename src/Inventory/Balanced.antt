-- ===== src/Inventory/Balanced.antt =====
-- Every change of the inventory tables keeps the rows balanced: the steps on the tables.
use invora_api.Base.{
  ◌+◌, ◌<◌, ◌≡◌, inl, inr, [], ◌∷◌, ◌++◌, map, All, pos, ◌+ℤ◌, ◌≤ℤ◌, +ℤ_parts, eq_of_parts, arith,
  ◌==◌, Bool-cases,
}
use invora_api.Inventory.Rows.{Item, Movement, Db, replace_item, add_item}
use invora_api.Inventory.Accounting.{
  Accounted, IsBalanced, total_delta-append, total_delta-fresh, All-append, All-imp, All-map,
}

-- A row that is written anew is accounted for, if its new value is.
replace_item-Accounted :
    (db : Db) (new : Item)
    → Accounted db new
    → (i : Item) → Accounted db i
    → Accounted db (replace_item new i)
replace_item-Accounted db new h i hi = elim (Bool-cases (i.id == new.id)) [
  | inl same ↦ rw same h
  | inr other ↦ rw other hi
]

abbrev pub with_item : Item → Db → Db
with_item new db = record db { items = map (replace_item new) db.items }

abbrev pub with_movement : Movement → Db → Db
with_movement m db = record db { movements = db.movements ++ m ∷ [] }

pub with_item-IsBalanced :
    (db : Db) (new : Item) → Accounted db new → IsBalanced db → IsBalanced (with_item new db)
with_item-IsBalanced db new h b = record {
  items =
      All-imp (Accounted db) (Accounted (with_item new db)) _
        (λ i a. record { known = a.known; nonnegative = a.nonnegative; adds_up = a.adds_up })
        (All-map (Accounted db) (Accounted db) (replace_item new) db.items
          (replace_item-Accounted db new h) b.items);
  movements = b.movements;
}

module _ (db : Db) (m : Movement) (new old : Item) where
  -- After a movement of `old` the rewritten row is accounted for, and so is every other row.
  moved-Accounted :
      new.id ≡ old.id
      → m.inventory_item_id ≡ old.id
      → new.current_stock ≡ old.current_stock +ℤ m.quantity_delta
      → pos 0 ≤ℤ new.current_stock
      → Accounted db old
      → (i : Item) → Accounted db i
      → Accounted (with_movement m (with_item new db)) (replace_item new i)
  moved-Accounted e₁ e₂ e₃ nonneg ho i hi = elim (Bool-cases (i.id == new.id)) [
    | inl same ↦ rw same (record {
      known = ground arith;
      nonnegative = nonneg;
      adds_up = ground (arith, total_delta-append new.id db.movements m, ho.adds_up, ho.known);
    })
    | inr other ↦ rw other (record {
      known = hi.known;
      nonnegative = hi.nonnegative;
      adds_up = ground (arith, total_delta-append i.id db.movements m, hi.adds_up);
    })
  ]

  pub moved-IsBalanced :
      new.id ≡ old.id
      → m.inventory_item_id ≡ old.id
      → new.current_stock ≡ old.current_stock +ℤ m.quantity_delta
      → pos 0 ≤ℤ new.current_stock
      → Accounted db old
      → IsBalanced db
      → IsBalanced (with_movement m (with_item new db))
  moved-IsBalanced e₁ e₂ e₃ nonneg ho b = record {
    items =
        All-map (Accounted db) (Accounted (with_movement m (with_item new db))) (replace_item new)
          db.items (moved-Accounted e₁ e₂ e₃ nonneg ho) b.items;
    movements =
        All-append (λ (n : Movement). n.inventory_item_id < db.next_id) db.movements (m ∷ [])
          b.movements (ground (arith, ho.known), tt);
  }

-- The row of a new item, with the movement of its opening stock if it has any.
module _ (db : Db) (i : Item) (fresh : i.id ≡ db.next_id) (nonneg : pos 0 ≤ℤ i.current_stock) where
  added_old : (j : Item) → Accounted db j → Accounted (add_item i db) j
  added_old j h = record {
    known = ground (arith, h.known);
    nonnegative = h.nonnegative;
    adds_up = h.adds_up;
  }

  added_movements :
      IsBalanced db → All (λ (n : Movement). n.inventory_item_id < db.next_id + 1) db.movements
  added_movements b =
      All-imp (λ (n : Movement). n.inventory_item_id < db.next_id)
        (λ (n : Movement). n.inventory_item_id < db.next_id + 1) db.movements (λ n h. ground arith)
        b.movements

  pub added-IsBalanced : i.current_stock ≡ pos 0 → IsBalanced db → IsBalanced (add_item i db)
  added-IsBalanced empty b = record {
    items =
        All-append (Accounted (add_item i db)) db.items (i ∷ [])
          (All-imp (Accounted db) (Accounted (add_item i db)) db.items added_old b.items)
          (
            record {
              known = ground arith;
              nonnegative = nonneg;
              adds_up = ground (arith, total_delta-fresh i.id db.next_id db.movements b.movements);
            },
            tt,
          );
    movements = added_movements b;
  }

  module _ (m : Movement) (own : m.inventory_item_id ≡ i.id)
      (all_of_it : m.quantity_delta ≡ i.current_stock) where
    opened_old : (j : Item) → Accounted db j → Accounted (with_movement m (add_item i db)) j
    opened_old j h = record {
      known = ground (arith, h.known);
      nonnegative = h.nonnegative;
      adds_up = ground (arith, h.known, h.adds_up, total_delta-append j.id db.movements m);
    }

    pub opened-IsBalanced : IsBalanced db → IsBalanced (with_movement m (add_item i db))
    opened-IsBalanced b = record {
      items =
          All-append (Accounted (with_movement m (add_item i db))) db.items (i ∷ [])
            (All-imp (Accounted db) (Accounted (with_movement m (add_item i db))) db.items
              opened_old b.items)
            (
              record {
                known = ground arith;
                nonnegative = nonneg;
                adds_up = ground (
                  arith,
                  total_delta-fresh i.id db.next_id db.movements b.movements,
                  total_delta-append i.id db.movements m,
                  +ℤ_parts (pos 0) m.quantity_delta,
                  eq_of_parts (pos 0 +ℤ m.quantity_delta) m.quantity_delta,
                );
              },
              tt,
            );
      movements =
          All-append (λ (n : Movement). n.inventory_item_id < db.next_id + 1) db.movements (m ∷ [])
            (added_movements b) (ground arith, tt);
    }

-- ===== src/Inventory/Accounting.antt =====
-- The movement ledger accounts for every stock: an invariant of the rows, kept by every operation.
use invora_api.Base.{
  ℕ, ◌≤◌, ◌<◌, ◌≡◌, refl, inl, inr, Bool, some, List, [], ◌∷◌, ◌++◌, map, find, All, ℤ, pos, ◌+ℤ◌,
  ◌≤ℤ◌, +ℤ_parts, eq_of_parts, arith, if◌then◌else◌, ◌==◌, Bool-cases,
}
use mathlib.Core.Path.{subst}
use invora_api.Inventory.Rows.{Item, Movement, Db}

-- The sum of the changes that the movements of an item record.
abbrev pub total_delta : ℕ → List Movement → ℤ
total_delta i [] = pos 0
total_delta i (m ∷ ms) =
    let rest = total_delta i ms in
    if m.inventory_item_id == i then m.quantity_delta +ℤ rest else rest

-- An item whose movements add up to its stock, which is not negative.
pub record Accounted (db : Db) (i : Item) : Type 0 where
  pub known : i.id < db.next_id
  pub nonnegative : pos 0 ≤ℤ i.current_stock
  pub adds_up : total_delta i.id db.movements ≡ i.current_stock

pub record IsBalanced (db : Db) : Type 0 where
  pub items : All (Accounted db) db.items
  pub movements : All (λ (m : Movement). m.inventory_item_id < db.next_id) db.movements

-- One more movement adds its change to its own item, and nothing to another.
pub total_delta-append :
    (i : ℕ) (ms : List Movement) (m : Movement)
    → total_delta i (ms ++ m ∷ []) ≡ (
        if m.inventory_item_id == i then total_delta i ms +ℤ m.quantity_delta else total_delta i ms)
total_delta-append i [] m = ground (
  arith,
  eq_of_parts (m.quantity_delta +ℤ pos 0) (pos 0 +ℤ m.quantity_delta),
  +ℤ_parts m.quantity_delta (pos 0),
  +ℤ_parts (pos 0) m.quantity_delta,
)
total_delta-append i (n ∷ ms) m = ground (
  arith,
  total_delta-append i ms m,
  eq_of_parts (n.quantity_delta +ℤ (total_delta i ms +ℤ m.quantity_delta))
      (n.quantity_delta +ℤ total_delta i ms +ℤ m.quantity_delta),
  +ℤ_parts n.quantity_delta (total_delta i ms +ℤ m.quantity_delta),
  +ℤ_parts (total_delta i ms) m.quantity_delta,
  +ℤ_parts n.quantity_delta (total_delta i ms),
  +ℤ_parts (n.quantity_delta +ℤ total_delta i ms) m.quantity_delta,
)

-- An identifier that no movement has used has no changes.
pub total_delta-fresh :
    (i n : ℕ) (ms : List Movement)
    → All (λ (m : Movement). m.inventory_item_id < n) ms
    → n ≤ i
    → total_delta i ms ≡ pos 0
total_delta-fresh i n [] h le = refl
total_delta-fresh i n (m ∷ ms) h le = ground (arith, total_delta-fresh i n ms h.1 le)

-- A row that a query finds has the property of all rows.
pub All-find {ℓ κ} :
    {A : Type ℓ} (P : A → Type κ) (p : A → Bool) (xs : List A) {a : A}
    → All P xs
    → find p xs ≡ some a
    → P a
All-find P p [] h e = cc
All-find P p (x ∷ xs) {a} h e = elim (Bool-cases (p x)) [
  | inl hit ↦ let e' : some x ≡ some a = rw hit at e in let same : x ≡ a = cc in subst P same h.0
  | inr miss ↦ All-find P p xs h.1 (rw miss at e)
]

pub All-append {ℓ κ} :
    {A : Type ℓ} (P : A → Type κ) (xs ys : List A) → All P xs → All P ys → All P (xs ++ ys)
All-append P [] ys hx hy = hy
All-append P (x ∷ xs) ys hx hy = (hx.0, All-append P xs ys hx.1 hy)

pub All-imp {ℓ κ} :
    {A : Type ℓ} (P Q : A → Type κ) (xs : List A) → ((a : A) → P a → Q a) → All P xs → All Q xs
All-imp P Q [] f h = h
All-imp P Q (x ∷ xs) f h = (f x h.0, All-imp P Q xs f h.1)

pub All-map {ℓ κ} :
    {A : Type ℓ} (P Q : A → Type κ) (g : A → A) (xs : List A)
    → ((a : A) → P a → Q (g a))
    → All P xs
    → All Q (map g xs)
All-map P Q g [] f h = h
All-map P Q g (x ∷ xs) f h = (f x h.0, All-map P Q g xs f h.1)

-- ===== src/Sales/Deleted.antt =====
-- Transactions that have been deleted stay so.
use invora_api.Base.{
  ℕ, ◌≡◌, refl, true, Option, none, some, is_some, List, [], ◌∷◌, ◌++◌, map, find, inl, inr,
  Bool-cases, arith,
}
use invora_api.Text.{Text}
use invora_api.Exec.Transaction.{refuse}
use invora_api.Exec.Keeps.{Keeps, keeping}
use invora_api.Sales.Rows.{SalesTransaction, Db, transaction_fits}
use invora_api.Sales.Transactions.{CreateValues, Values, UpdateValues}
use invora_api.Sales.Changes.{
  is_transaction, with_values, deleted, change_if, new_transaction, get_product_for_user,
  create_transaction, get_transaction_for_user, update_transaction, soft_delete_transaction,
  get_open_transaction, ensure_product, add_transaction, change_transaction, delete_transaction,
}

-- The transaction of a user that an identifier finds is a deleted one.
pub record IsDeleted (user id : ℕ) (db : Db) : Type 0 where
  pub row : SalesTransaction
  pub found : find (is_transaction user id) db.transactions ≡ some row
  pub marked : is_some row.deleted_at ≡ true

module _ (user id : ℕ) where
  found_append :
      {row : SalesTransaction} (ts us : List SalesTransaction)
      → find (is_transaction user id) ts ≡ some row
      → find (is_transaction user id) (ts ++ us) ≡ some row
  found_append [] us h = cc
  found_append {row} (t ∷ ts) us h = ground (arith, found_append {row = row} ts us)

  -- A change that keeps the keys and the mark of a row.
  pub record Marks (f : SalesTransaction → SalesTransaction) : Type 0 where
    pub same_key : (t : SalesTransaction) → is_transaction user id (f t) ≡ is_transaction user id t
    pub stays :
        (t : SalesTransaction) → is_some t.deleted_at ≡ true → is_some (f t).deleted_at ≡ true

  pub found_map :
      {row : SalesTransaction} (f : SalesTransaction → SalesTransaction)
      (ts : List SalesTransaction)
      → Marks f
      → find (is_transaction user id) ts ≡ some row
      → find (is_transaction user id) (map f ts) ≡ some (f row)
  found_map f [] m h = cc
  found_map {row} f (t ∷ ts) m h =
      let same = m.same_key t in
      elim (Bool-cases (is_transaction user id t)) [
        | inl it ↦ let e : t ≡ row = ground arith in rw (same, it, e) refl
        | inr other ↦ rw (same, other) (found_map {row = row} f ts m (rw other at h))
      ]

  with_values-Marks : (i : ℕ) (v : Values) → Marks (change_if i (with_values v))
  with_values-Marks i v = record { same_key = λ t. ground arith; stays = λ t h. ground arith }

  pub deleted-Marks : (i now : ℕ) (reason : Option Text) → Marks (change_if i (deleted now reason))
  deleted-Marks i now reason = record { same_key = λ t. ground arith; stays = λ t h. ground arith }

  mapped :
      (f : SalesTransaction → SalesTransaction) (db : Db)
      → Marks f
      → IsDeleted user id db
      → IsDeleted user id (record db { transactions = map f db.transactions })
  mapped f db m h = record {
    row = f h.row;
    found = found_map f db.transactions m h.found;
    marked = m.stays h.row h.marked;
  }

  create_transaction-Keeps :
      (owner : ℕ) (v : Values) → Keeps (IsDeleted user id) (create_transaction owner v)
  unfolding create_transaction refuse
  create_transaction-Keeps owner v = record {
    keeps = λ s h.
        let t = new_transaction s.current.next_id owner v in
        elim (Bool-cases (transaction_fits t)) [
          | inl fits ↦ rw fits (record {
            current = record {
              row = h.current.row;
              found = found_append s.current.transactions (t ∷ []) h.current.found;
              marked = h.current.marked;
            };
            committed = h.committed;
          })
          | inr large ↦ rw large (record { current = h.committed; committed = h.committed })
        ];
  }

  update_transaction-Keeps :
      (t : SalesTransaction) (v : Values) → Keeps (IsDeleted user id) (update_transaction t v)
  unfolding update_transaction refuse
  update_transaction-Keeps t v = record {
    keeps = λ s h. elim (Bool-cases (transaction_fits (with_values v t))) [
      | inl fits ↦ rw fits (record {
        current =
            mapped (change_if t.id (with_values v)) s.current (with_values-Marks t.id v) h.current;
        committed = h.committed;
      })
      | inr large ↦ rw large (record { current = h.committed; committed = h.committed })
    ];
  }

  soft_delete-Keeps :
      (t : SalesTransaction) (reason : Option Text)
      → Keeps (IsDeleted user id) (soft_delete_transaction t reason)
  unfolding soft_delete_transaction
  soft_delete-Keeps t reason = record {
    keeps = λ s h. record {
      current =
          mapped (change_if t.id (deleted (s.clock s.reads) reason)) s.current
            (deleted-Marks t.id (s.clock s.reads) reason) h.current;
      committed = h.committed;
    };
  }

  get_open-Keeps : (owner i : ℕ) → Keeps (IsDeleted user id) (get_open_transaction owner i)
  unfolding get_open_transaction get_transaction_for_user
  get_open-Keeps owner i = search keeping

  get_product-Keeps : (owner i : ℕ) → Keeps (IsDeleted user id) (get_product_for_user owner i)
  unfolding get_product_for_user
  get_product-Keeps owner i = search keeping

  ensure_product-Keeps :
      (owner old : ℕ) (new : Option ℕ) → Keeps (IsDeleted user id) (ensure_product owner old new)
  ensure_product-Keeps owner old none = search keeping
  ensure_product-Keeps owner old (some new) = search (keeping, get_product-Keeps)

  pub add-Keeps :
      (owner : ℕ) (v : CreateValues) → Keeps (IsDeleted user id) (add_transaction owner v)
  unfolding add_transaction
  add-Keeps owner v = search (keeping, get_product-Keeps, create_transaction-Keeps) depth 9

  pub change-Keeps :
      (owner i : ℕ) (v : UpdateValues) → Keeps (IsDeleted user id) (change_transaction owner i v)
  unfolding change_transaction
  change-Keeps owner i v =
      search (keeping, get_open-Keeps, ensure_product-Keeps, update_transaction-Keeps) depth 9

  pub delete-Keeps :
      (owner i : ℕ) (reason : Option Text)
      → Keeps (IsDeleted user id) (delete_transaction owner i reason)
  unfolding delete_transaction
  delete-Keeps owner i reason = search (keeping, get_open-Keeps, soft_delete-Keeps) depth 9

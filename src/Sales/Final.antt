-- ===== src/Sales/Final.antt =====
-- Deleting a transaction, in a history of requests to SalesTransactionService.
use invora_api.Base.{ℕ, ◌≡◌, refl, Option, some, is_some, List, [], ◌∷◌, find, arith}
use invora_api.Text.{Text}
use invora_api.Result.{ok, err}
use invora_api.Exec.Session.{Session}
use invora_api.Exec.Transaction.{commit}
use invora_api.Exec.Keeps.{after, after-Keeps, open_session}
use invora_api.Exec.Returns.{
  Returns, ok-Returns, bind-Returns, require-Returns, raise_if-Returns, try-Returns,
}
use invora_api.Sales.Status.{is_app_error, transaction_already_deleted}
use invora_api.Sales.Row.{normalize_optional_text}
use invora_api.Sales.Rows.{SalesTransaction, Db}
use invora_api.Sales.Transactions.{CreateValues, UpdateValues}
use invora_api.Sales.Changes.{
  is_transaction, deleted, change_if, get_transaction_for_user, soft_delete_transaction, saved,
  get_open_transaction, add_transaction, change_transaction, delete_transaction,
}
use invora_api.Sales.Deleted.{
  IsDeleted, found_map, deleted-Marks, add-Keeps, change-Keeps, delete-Keeps,
}

pub data Request : Type 0 where
  to_add : CreateValues → Request
  to_change : (transaction_id : ℕ) → UpdateValues → Request
  to_delete : (transaction_id : ℕ) (reason : Option Text) → Request

-- A history: who asks for what, with the readings of the clock while the request is served.
abbrev pub History : Type 0
History = List ((ℕ → ℕ) × ℕ × Request)

abbrev pub transact : (ℕ → ℕ) → ℕ → Request → Db → Db
transact clock user (to_add values) = after (add_transaction user values) clock
transact clock user (to_change id values) = after (change_transaction user id values) clock
transact clock user (to_delete id reason) = after (delete_transaction user id reason) clock

unfoldable pub transact_all : History → Db → Db
transact_all [] db = db
transact_all ((clock, user, request) ∷ later) db =
    transact_all later (transact clock user request db)

module _ (user id : ℕ) where
  transact-IsDeleted :
      (clock : ℕ → ℕ) (owner : ℕ) (request : Request) (db : Db)
      → IsDeleted user id db
      → IsDeleted user id (transact clock owner request db)
  transact-IsDeleted clock owner (to_add values) db =
      after-Keeps clock db (add-Keeps user id owner values)
  transact-IsDeleted clock owner (to_change i values) db =
      after-Keeps clock db (change-Keeps user id owner i values)
  transact-IsDeleted clock owner (to_delete i reason) db =
      after-Keeps clock db (delete-Keeps user id owner i reason)

  transact_all-IsDeleted :
      (history : History) (db : Db)
      → IsDeleted user id db
      → IsDeleted user id (transact_all history db)
  unfolding transact_all
  transact_all-IsDeleted [] db h = h
  transact_all-IsDeleted ((clock, owner, request) ∷ later) db h =
      transact_all-IsDeleted later (transact clock owner request db)
        (transact-IsDeleted clock owner request db h)

  refused :
      (db : Db) (clock : ℕ → ℕ)
      → IsDeleted user id db
      → get_open_transaction user id (open_session clock db)
        ≡ (err transaction_already_deleted, open_session clock db)
  unfolding get_open_transaction get_transaction_for_user
  refused db clock h = rw (h.found, h.marked) refl

  get_open-Returns :
      (s : Session Db)
      → Returns
          (λ t s'.
            (find (is_transaction user id) s.current.transactions ≡ some t)
            × (s'.current ≡ s.current))
          (get_open_transaction user id s)
  unfolding get_open_transaction get_transaction_for_user
  get_open-Returns s =
      require-Returns (find (is_transaction user id) s.current.transactions) _ _ s (λ t found.
        raise_if-Returns (is_some t.deleted_at) _ _ s (λ not_yet. ok-Returns t s (found, refl)))

  delete-Returns :
      (reason : Option Text) (s : Session Db)
      → Returns (λ t s'. IsDeleted user id s'.committed) (delete_transaction user id reason s)
  unfolding delete_transaction soft_delete_transaction commit
  delete-Returns reason s = bind-Returns (get_open_transaction user id) _ s (λ t s' got.
      let (found, same) = (get_open-Returns s).returned t s' got in
      let why = normalize_optional_text reason 1000 in
      let now = s'.clock s'.reads in
      let found' : find (is_transaction user id) s'.current.transactions ≡ some t = rw same found in
      try-Returns (saved (soft_delete_transaction t why)) is_app_error s' (
        ok-Returns (deleted now why t) _ (record {
          row = change_if t.id (deleted now why) t;
          found =
              found_map user id (change_if t.id (deleted now why)) s'.current.transactions
                (deleted-Marks user id t.id now why) found';
          marked = ground arith;
        })))

  gone :
      (reason : Option Text) (clock : ℕ → ℕ) (db : Db) (t : SalesTransaction) (history : History)
      (later : ℕ → ℕ)
      → (delete_transaction user id reason (open_session clock db)).0 ≡ ok t
      → let db' = transact_all history (after (delete_transaction user id reason) clock db) in
        get_open_transaction user id (open_session later db')
        ≡ (err transaction_already_deleted, open_session later db')
  gone reason clock db t history later h =
      let m = delete_transaction user id reason (open_session clock db) in
      refused (transact_all history m.1.committed) later (
        transact_all-IsDeleted history m.1.committed
          ((delete-Returns reason (open_session clock db)).returned t m.1 (rw h refl)))

-- A deletion is final: once a user's transaction has been deleted, every later change and every later
-- deletion of it is refused as already deleted, whatever requests are served in between.
pub delete_transaction-final :
    (user id : ℕ) (reason : Option Text) (clock : ℕ → ℕ) (db : Db) (t : SalesTransaction)
    → (delete_transaction user id reason (open_session clock db)).0 ≡ ok t
    → (history : History) (later : ℕ → ℕ) (values : UpdateValues) (again : Option Text)
    → let db' = transact_all history (after (delete_transaction user id reason) clock db) in
      ((change_transaction user id values (open_session later db')).0
        ≡ err transaction_already_deleted)
      × ((delete_transaction user id again (open_session later db')).0
          ≡ err transaction_already_deleted)
unfolding change_transaction delete_transaction
delete_transaction-final user id reason clock db t h history later values again =
    let e = gone user id reason clock db t history later h in (rw e refl, rw e refl)

-- ===== src/Sales/Changes.antt =====
-- SalesTransactionService of app/modules/sales/application/service.py: one transaction created, changed or
-- deleted, with the methods of SalesTransactionRepository. A flush writes the columns that were set.
mod Tests
use invora_api.Base.{
  ℕ, ◌+◌, Bool, true, false, ◌&&◌, not, Option, none, some, List, [], ◌∷◌, ◌++◌, map, find, is_some,
  if◌then◌else◌, ◌==◌,
}
use invora_api.Text.{Text}
use invora_api.Result.{ok}
use invora_api.Exec.{Exec, gets, pure, lift, require, try_except, raise_if, ◌>>=◌, ◌>>◌}
use invora_api.Exec.Session.{Session, tick}
use invora_api.Exec.Transaction.{commit, rollback, rollback_if, refuse}
use invora_api.Products.Rows.{Product, same_product}
use invora_api.Sales.Status.{
  is_app_error, numeric_overflow, transaction_not_found, transaction_product_not_found,
  transaction_already_deleted,
}
use invora_api.Sales.Row.{normalize_optional_text}
use invora_api.Sales.Rows.{SalesTransaction, manual, Db, Action, transaction_fits}
use invora_api.Sales.Transactions.{
  CreateValues, Values, UpdateValues, normalize_transaction_create_values,
  normalize_transaction_update_values,
}

unfoldable pub get_product_for_user : ℕ → ℕ → Action Product
get_product_for_user user id = do
  found ← gets (λ s. find (same_product user id) s.current.products)
  require found transaction_product_not_found

abbrev pub is_transaction : ℕ → ℕ → SalesTransaction → Bool
is_transaction user id t = t.id == id && t.user_id == user

abbrev pub with_values : Values → SalesTransaction → SalesTransaction
with_values v t = record t {
  product_id = v.product_id;
  sale_date = v.sale_date;
  quantity = v.quantity;
  unit_price = v.unit_price;
  total_amount = v.total_amount;
  customer_name = v.customer_name;
  channel = v.channel;
  notes = v.notes;
}

abbrev pub values_of : SalesTransaction → Values
values_of t = record {
  product_id = t.product_id;
  sale_date = t.sale_date;
  quantity = t.quantity;
  unit_price = t.unit_price;
  total_amount = t.total_amount;
  customer_name = t.customer_name;
  channel = t.channel;
  notes = t.notes;
}

abbrev pub new_transaction : ℕ → ℕ → Values → SalesTransaction
new_transaction id user v = record {
  id = id;
  user_id = user;
  product_id = v.product_id;
  upload_batch_id = none;
  sale_date = v.sale_date;
  quantity = v.quantity;
  unit_price = v.unit_price;
  total_amount = v.total_amount;
  customer_name = v.customer_name;
  channel = v.channel;
  notes = v.notes;
  source = manual;
  deleted_at = none;
  deleted_reason = none;
}

-- A number out of its column's range makes the flush fail, with an error that is no `AppError`.
unfoldable pub create_transaction : ℕ → Values → Action SalesTransaction
create_transaction user v s =
    let t = new_transaction s.current.next_id user v in
    if transaction_fits t
    then (
      ok t,
      record s {
        current = record s.current {
          transactions = s.current.transactions ++ t ∷ [];
          next_id = s.current.next_id + 1;
        };
      },
    )
    else refuse numeric_overflow s

-- With deleted rows, as both callers ask.
unfoldable pub get_transaction_for_user : ℕ → ℕ → Action (Option SalesTransaction)
get_transaction_for_user user id = gets (λ s. find (is_transaction user id) s.current.transactions)

abbrev pub change_if :
    ℕ → (SalesTransaction → SalesTransaction) → SalesTransaction → SalesTransaction
change_if id f t = if t.id == id then f t else t

unfoldable pub update_transaction : SalesTransaction → Values → Action SalesTransaction
update_transaction t v s =
    if transaction_fits (with_values v t)
    then (
      ok (with_values v t),
      record (tick s) {
        current = record s.current {
          transactions = map (change_if t.id (with_values v)) s.current.transactions;
        };
      },
    )
    else refuse numeric_overflow (tick s)

abbrev pub deleted : ℕ → Option Text → SalesTransaction → SalesTransaction
deleted now reason t = record t { deleted_at = some now; deleted_reason = reason }

unfoldable pub soft_delete_transaction : SalesTransaction → Option Text → Action SalesTransaction
soft_delete_transaction t reason s = (
  ok (deleted (s.clock s.reads) reason t),
  record (tick s) {
    current = record s.current {
      transactions = map (change_if t.id (deleted (s.clock s.reads) reason)) s.current.transactions;
    };
  },
)

-- A write with its commit, in a `try` that rolls an `AppError` back.
abbrev pub saved : Action SalesTransaction → Action SalesTransaction
saved write = do t ← write; commit; pure t

abbrev pub stored : Action SalesTransaction → Action SalesTransaction
stored write = try_except (saved write) (rollback_if is_app_error)

unfoldable pub add_transaction : ℕ → CreateValues → Action SalesTransaction
unfolding get_product_for_user create_transaction
add_transaction user values = do
  normalized ← lift (normalize_transaction_create_values values)
  get_product_for_user user normalized.product_id
  stored (create_transaction user normalized)

unfoldable pub get_open_transaction : ℕ → ℕ → Action SalesTransaction
unfolding get_transaction_for_user
get_open_transaction user id = do
  found ← get_transaction_for_user user id
  t ← require found transaction_not_found
  raise_if (is_some t.deleted_at) transaction_already_deleted
  pure t

-- `"product_id" in values and values["product_id"] != transaction.product_id`
abbrev pub ensure_product : ℕ → ℕ → Option ℕ → Action Unit
ensure_product user old none = pure tt
ensure_product user old (some new) =
    if new == old then pure tt else (do get_product_for_user user new; pure tt)

unfoldable pub change_transaction : ℕ → ℕ → UpdateValues → Action SalesTransaction
unfolding get_open_transaction get_product_for_user update_transaction
change_transaction user id values = do
  t ← get_open_transaction user id
  ensure_product user t.product_id values.product_id
  normalized ← lift (normalize_transaction_update_values values (values_of t))
  stored (update_transaction t normalized)

unfoldable pub delete_transaction : ℕ → ℕ → Option Text → Action SalesTransaction
unfolding get_open_transaction soft_delete_transaction normalize_optional_text
delete_transaction user id reason = do
  t ← get_open_transaction user id
  stored (soft_delete_transaction t (normalize_optional_text reason 1000))

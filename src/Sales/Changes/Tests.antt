-- ===== src/Sales/Changes/Tests.antt =====
-- The theorems on transactions at concrete values.
use invora_api.Base.{ℕ, ◌≡◌, refl, none, some, [], ◌∷◌, pos}
use invora_api.Text.{codes, normalize}
use invora_api.Decimal.{
  parse_decimal, is_nonpositive, is_negative, exponent_below, at_least, quantize,
}
use invora_api.Result.{ok, err}
use invora_api.Exec.Keeps.{open_session, after}
use invora_api.Exec.Transaction.{commit}
use invora_api.Sales.Status.{transaction_already_deleted}
use invora_api.Sales.Rows.{SalesTransaction, manual, Db}
use invora_api.Sales.Transactions.{
  null, text, CreateValues, Values, normalize_transaction_create_values,
  normalize_transaction_update_values,
}
use invora_api.Sales.Changes.{deleted, change_transaction, delete_transaction}
use invora_api.Sales.Final.{History, transact_all, to_change, delete_transaction-final}
use invora_api.Sales.Totals.{set_quantity, update_quantity-create}

abbrev two_at_three : CreateValues
two_at_three = record {
  product_id = 1;
  sale_date = 20;
  quantity = text (codes "2");
  unit_price = text (codes "3.00");
  total_amount = null;
  customer_name = none;
  channel = none;
  notes = none;
}

abbrev six : Values
six = record {
  product_id = 1;
  sale_date = 20;
  quantity = pos 2000;
  unit_price = some (pos 300);
  total_amount = some (pos 600);
  customer_name = none;
  channel = none;
  notes = none;
}

abbrev fifteen : Values
fifteen = record six { quantity = pos 5000; total_amount = some (pos 1500) }

creates_six : normalize_transaction_create_values two_at_three ≡ ok six
unfolding normalize_transaction_create_values normalize parse_decimal is_nonpositive is_negative
    exponent_below at_least quantize
creates_six = refl

creates_fifteen :
    normalize_transaction_create_values (record two_at_three { quantity = text (codes "5") })
    ≡ ok fifteen
unfolding normalize_transaction_create_values normalize parse_decimal is_nonpositive is_negative
    exponent_below at_least quantize
creates_fifteen = refl

update_quantity-create_example :
    normalize_transaction_update_values (set_quantity (text (codes "5"))) six ≡ ok fifteen
update_quantity-create_example =
    update_quantity-create two_at_three (text (codes "5")) six fifteen refl creates_six
      creates_fifteen

abbrev sale_of_six : SalesTransaction
sale_of_six = record {
  id = 4;
  user_id = 7;
  product_id = 1;
  upload_batch_id = none;
  sale_date = 20;
  quantity = pos 2000;
  unit_price = some (pos 300);
  total_amount = some (pos 600);
  customer_name = none;
  channel = none;
  notes = none;
  source = manual;
  deleted_at = none;
  deleted_reason = none;
}

abbrev one_sale : Db
one_sale = record {
  products = [];
  batches = [];
  transactions = sale_of_six ∷ [];
  rejected = [];
  next_id = 5;
}

abbrev at_nine : ℕ → ℕ
at_nine n = 9

deletes :
    (delete_transaction 7 4 none (open_session at_nine one_sale)).0
    ≡ ok (deleted 9 none sale_of_six)
unfolding delete_transaction commit
deletes = refl

abbrev a_change : History
a_change = (at_nine, 7, to_change 4 (set_quantity (text (codes "5")))) ∷ []

delete_transaction-final_example :
    let db' = transact_all a_change (after (delete_transaction 7 4 none) at_nine one_sale) in
    ((change_transaction 7 4 (set_quantity (text (codes "5"))) (open_session at_nine db')).0
      ≡ err transaction_already_deleted)
    × ((delete_transaction 7 4 none (open_session at_nine db')).0 ≡ err transaction_already_deleted)
delete_transaction-final_example =
    delete_transaction-final 7 4 none at_nine one_sale (deleted 9 none sale_of_six) deletes a_change
      at_nine (set_quantity (text (codes "5"))) none

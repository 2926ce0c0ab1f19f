-- ===== src/Sales/Service.antt =====
-- app/modules/sales/application/service.py: SalesUploadService.upload_sales_csv.
use invora_api.Base.{
  ℕ, ◌&&◌, Option, none, some, List, [], ◌∷◌, map, length, ltb, ◌==◌, if◌then◌else◌,
}
use invora_api.Text.{Text, codes, same_text, strip}
use invora_api.Result.{Result, ok, err}
use invora_api.Exec.{pure, lift, try_except, raise_if, ◌>>=◌, ◌>>◌}
use invora_api.Exec.Transaction.{utc_now, commit, rollback_if}
use invora_api.Products.Status.{ProductError}
use invora_api.Products.Sku.{Casing, normalize_sku}
use invora_api.Products.Rows.{Product}
use invora_api.Sales.Status.{SalesError, is_app_error, duplicate_upload}
use invora_api.Sales.Upload.{Files, ParsedRow, validate_upload_file, parse_sales_csv}
use invora_api.Sales.Row.{
  Locale, ValidRow, RejectedRow, Validated, valid, rejected, get_text, is_blank, validate_sales_row,
}
use invora_api.Sales.Rows.{
  csv_upload, UploadStatus, completed, completed_with_errors, failed, Batch, SalesTransaction,
  RejectedRowRecord, Action, file_hash_exists_for_user, get_products_by_sku_for_user,
  create_upload_batch, create_sales_transactions_bulk, create_rejected_rows_bulk,
  update_upload_batch_status,
}

-- `calculate_upload_status`
unfoldable pub calculate_upload_status : ℕ → ℕ → UploadStatus
calculate_upload_status accepted_rows rejected_rows =
    if ltb 0 accepted_rows && rejected_rows == 0
    then completed
    else if ltb 0 rejected_rows
    then completed_with_errors
    else failed

abbrev cons_sku : Result ProductError Text → List Text → List Text
cons_sku (ok sku) skus = sku ∷ skus
cons_sku (err _) skus = skus

-- `collect_normalized_skus`; the set is a list.
unfoldable pub collect_normalized_skus : Casing → List ParsedRow → List Text
unfolding strip normalize_sku
collect_normalized_skus casing [] = []
collect_normalized_skus casing (row ∷ rows) =
    let skus = collect_normalized_skus casing rows in
    let value = get_text (codes "product_sku") row.raw_data in
    if is_blank (strip value) then skus else cons_sku (normalize_sku casing value) skus

-- The accepted and the rejected rows.
pub record Split : Type 0 where
  pub accepted : List ValidRow
  pub rejected : List RejectedRow

abbrev pub sort_in : Validated → Split → Split
sort_in (valid row) split = record split { accepted = row ∷ split.accepted }
sort_in (rejected row) split = record split { rejected = row ∷ split.rejected }

abbrev pub then_sort :
    Result SalesError Validated → Result SalesError Split → Result SalesError Split
then_sort (err e) later = err e
then_sort (ok v) (err e) = err e
then_sort (ok v) (ok split) = ok (sort_in v split)

unfoldable pub validate_rows : Locale → List Text → List ParsedRow → Result SalesError Split
unfolding validate_sales_row
validate_rows l known [] = ok (record { accepted = []; rejected = [] })
validate_rows l known (row ∷ rows) =
    then_sort (validate_sales_row l known row) (validate_rows l known rows)

-- `products_by_sku[sku].id`; an accepted row has a known SKU.
abbrev pub id_of_sku : Text → List Product → ℕ
id_of_sku sku [] = 0
id_of_sku sku (p ∷ ps) =
    let later = id_of_sku sku ps in if same_text p.normalized_sku sku then p.id else later

abbrev pub transaction_values : ℕ → ℕ → List Product → ValidRow → SalesTransaction
transaction_values user batch products row = record {
  id = 0;
  user_id = user;
  product_id = id_of_sku row.product_sku products;
  upload_batch_id = some batch;
  sale_date = row.sale_date;
  quantity = row.quantity;
  unit_price = row.unit_price;
  total_amount = row.total_amount;
  customer_name = row.customer_name;
  channel = row.channel;
  notes = row.notes;
  source = csv_upload;
  deleted_at = none;
  deleted_reason = none;
}

abbrev pub rejected_row_values : ℕ → ℕ → RejectedRow → RejectedRowRecord
rejected_row_values user batch row = record {
  user_id = user;
  upload_batch_id = batch;
  row_number = row.row_number;
  raw_data = row.raw_data;
  error_code = row.error_code;
}

abbrev pub when_some : {A : Type 0} → List A → Action Unit → Action Unit
when_some [] m = pure tt
when_some (_ ∷ _) m = m

-- The `try` block.
unfoldable pub store_upload :
    ℕ → Text → Text → List Product → (total : ℕ) → Split → (now : ℕ) → Action Batch
unfolding create_upload_batch create_sales_transactions_bulk create_rejected_rows_bulk
    calculate_upload_status update_upload_batch_status
store_upload user filename hash products total split now = do
  batch ← create_upload_batch user filename hash total now
  when_some split.accepted (
      create_sales_transactions_bulk
        (map (transaction_values user batch.id products) split.accepted))
  when_some split.rejected
      (create_rejected_rows_bulk (map (rejected_row_values user batch.id) split.rejected))
  completed_at ← utc_now
  closed ←
      update_upload_batch_status batch
        (calculate_upload_status (length split.accepted) (length split.rejected)) total
        (length split.accepted) (length split.rejected) completed_at
  commit
  pure closed

unfoldable pub upload_sales_csv : Files → Locale → ℕ → Text → Option Text → List ℕ → Action Batch
unfolding validate_upload_file file_hash_exists_for_user get_products_by_sku_for_user store_upload
upload_sales_csv files l user filename content_type content = do
  file ← lift (validate_upload_file files filename content_type content)
  exists ← file_hash_exists_for_user user file.1
  raise_if exists duplicate_upload
  parsed_rows ← lift (parse_sales_csv files content)
  products ← get_products_by_sku_for_user user (collect_normalized_skus l.casing parsed_rows)
  split ← lift (validate_rows l (map (λ p. p.normalized_sku) products) parsed_rows)
  now ← utc_now
  try_except (store_upload user file.0 file.1 products (length parsed_rows) split now)
      (rollback_if is_app_error)

-- ===== src/Sales/Rows.antt =====
-- The tables of app/modules/sales/infrastructure/models.py that an upload writes, and the methods of
-- SalesUploadRepository.
use invora_api.Base.{
  ℕ, ◌+◌, ℤ, pos_part, Bool, true, false, ◌&&◌, Option, none, some, List, [], ◌∷◌, ◌++◌, map, any,
  all, ltb, ◌==◌, if◌then◌else◌, length,
}
use invora_api.Text.{Text, same_text, is_in}
use invora_api.Result.{ok}
use invora_api.Exec.{Exec, gets}
use invora_api.Exec.Session.{Session, tick}
use invora_api.Exec.Transaction.{refuse}
use invora_api.Products.Rows.{Product}
use invora_api.Sales.Status.{SalesError, numeric_overflow}
use invora_api.Sales.Row.{RejectCode}

-- UPLOAD_STATUSES
pub data UploadStatus : Type 0 where
  processing completed completed_with_errors failed : UploadStatus

pub record Batch : Type 0 where
  pub id : ℕ
  pub user_id : ℕ
  pub original_filename : Text
  pub file_hash : Text
  pub status : UploadStatus
  pub total_rows : ℕ
  pub accepted_rows : ℕ
  pub rejected_rows : ℕ
  pub started_at : ℕ
  pub completed_at : Option ℕ
  -- Whether there is a reason.
  pub failed_for_reason : Bool
  pub updated_at : ℕ

-- SALES_SOURCES, as far as a service sets them.
pub data Source : Type 0 where
  csv_upload manual : Source

pub record SalesTransaction : Type 0 where
  pub id : ℕ
  pub user_id : ℕ
  pub product_id : ℕ
  pub upload_batch_id : Option ℕ
  pub sale_date : ℕ
  pub quantity : ℤ
  pub unit_price : Option ℤ
  pub total_amount : Option ℤ
  pub customer_name : Option Text
  pub channel : Option Text
  pub notes : Option Text
  pub source : Source
  pub deleted_at : Option ℕ
  pub deleted_reason : Option Text

pub record RejectedRowRecord : Type 0 where
  pub user_id : ℕ
  pub upload_batch_id : ℕ
  pub row_number : ℕ
  pub raw_data : List (Text × Text)
  pub error_code : RejectCode

pub record Db : Type 0 where
  pub products : List Product
  pub batches : List Batch
  pub transactions : List SalesTransaction
  pub rejected : List RejectedRowRecord
  pub next_id : ℕ

abbrev pub Action : Type 0 → Type 0
Action A = Exec (Session Db) SalesError A

abbrev pub has_file : ℕ → Text → Batch → Bool
has_file user hash b = b.user_id == user && same_text b.file_hash hash

unfoldable pub file_hash_exists_for_user : ℕ → Text → Action Bool
file_hash_exists_for_user user hash = gets (λ s. any (has_file user hash) s.current.batches)

abbrev pub products_of : ℕ → List Text → List Product → List Product
products_of user skus [] = []
products_of user skus (p ∷ ps) =
    let rest = products_of user skus ps in
    if p.user_id == user && is_in p.normalized_sku skus then p ∷ rest else rest

unfoldable pub get_products_by_sku_for_user : ℕ → List Text → Action (List Product)
get_products_by_sku_for_user user skus = gets (λ s. products_of user skus s.current.products)

-- The batch that an upload starts with.
unfoldable pub create_upload_batch : ℕ → Text → Text → ℕ → ℕ → Action Batch
create_upload_batch user filename hash total now s =
    let b : Batch = record {
      id = s.current.next_id;
      user_id = user;
      original_filename = filename;
      file_hash = hash;
      status = processing;
      total_rows = total;
      accepted_rows = 0;
      rejected_rows = 0;
      started_at = now;
      completed_at = none;
      failed_for_reason = false;
      updated_at = s.clock s.reads;
    } in
    (
      ok b,
      record (tick s) {
        current = record s.current {
          batches = s.current.batches ++ b ∷ [];
          next_id = s.current.next_id + 1;
        };
      },
    )

-- The ranges of Numeric(14, 3), Numeric(12, 2) and Numeric(14, 2).
abbrev fits : ℕ → Option ℤ → Bool
fits bound none = true
fits bound (some z) = ltb (pos_part z) bound

abbrev pub transaction_fits : SalesTransaction → Bool
transaction_fits t =
    fits 100_000_000_000_000 (some t.quantity)
    && fits 1_000_000_000_000 t.unit_price
    && fits 100_000_000_000_000 t.total_amount

-- The rows get the next identifiers in their order.
abbrev pub numbered : ℕ → List SalesTransaction → List SalesTransaction
numbered id [] = []
numbered id (t ∷ ts) = record t { id = id } ∷ numbered (id + 1) ts

-- A number out of its column's range makes the flush fail, with an error that is no `IntegrityError`.
unfoldable pub create_sales_transactions_bulk : List SalesTransaction → Action Unit
create_sales_transactions_bulk rows s =
    if all transaction_fits rows
    then (
      ok tt,
      record s {
        current = record s.current {
          transactions = s.current.transactions ++ numbered s.current.next_id rows;
          next_id = s.current.next_id + length rows;
        };
      },
    )
    else refuse numeric_overflow s

unfoldable pub create_rejected_rows_bulk : List RejectedRowRecord → Action Unit
create_rejected_rows_bulk rows s =
    (ok tt, record s { current = record s.current { rejected = s.current.rejected ++ rows } })

abbrev pub closed_batch : UploadStatus → ℕ → ℕ → ℕ → ℕ → ℕ → Batch → Batch
closed_batch status total accepted rejected done_at now b = record b {
  status = status;
  total_rows = total;
  accepted_rows = accepted;
  rejected_rows = rejected;
  completed_at = some done_at;
  failed_for_reason = accepted == 0;
  updated_at = now;
}

abbrev pub close_if : ℕ → (Batch → Batch) → Batch → Batch
close_if id f b = if b.id == id then f b else b

unfoldable pub update_upload_batch_status : Batch → UploadStatus → ℕ → ℕ → ℕ → ℕ → Action Batch
update_upload_batch_status batch status total accepted rejected done_at s =
    let close = closed_batch status total accepted rejected done_at (s.clock s.reads) in
    (
      ok (close batch),
      record (tick s) {
        current = record s.current { batches = map (close_if batch.id close) s.current.batches };
      },
    )

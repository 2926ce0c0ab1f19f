-- ===== src/Sales/Stored.antt =====
-- What an upload that returns has stored, and what comes of uploading the same file again.
use invora_api.Base.{
  ℕ, suc, ◌+◌, ◌<◌, ◌≡◌, refl, sym, ap, ◌∙◌, true, ◌&&◌, Option, List, [], ◌∷◌, ◌++◌, map, any,
  length, arith, ◌==◌, if◌then◌else◌,
}
use invora_api.Text.{Text, same_text, same_text_refl}
use invora_api.Result.{ok, err}
use invora_api.Exec.Session.{Session, tick}
use invora_api.Exec.Transaction.{utc_now, commit}
use invora_api.Exec.Keeps.{open_session, after}
use invora_api.Exec.Returns.{
  Returns, ok-Returns, bind-Returns, lift-Returns, raise_if-Returns, try-Returns,
}
use invora_api.Products.Rows.{Product}
use invora_api.Sales.Status.{is_app_error, duplicate_upload}
use invora_api.Sales.Upload.{
  CsvText, csv, not_utf8, no_header, header_error, RawRow, ParsedRow, Files, parsed_rows, read_rows,
  validate_upload_file, parse_sales_csv,
}
use invora_api.Sales.Row.{Locale}
use invora_api.Sales.Rows.{
  UploadStatus, completed, completed_with_errors, Batch, Db, has_file, products_of, closed_batch,
  close_if, create_upload_batch, create_sales_transactions_bulk, create_rejected_rows_bulk,
  update_upload_batch_status, file_hash_exists_for_user, get_products_by_sku_for_user,
}
use invora_api.Sales.Service.{
  Split, calculate_upload_status, collect_normalized_skus, validate_rows, when_some,
  transaction_values, rejected_row_values, store_upload, upload_sales_csv,
}
use invora_api.Sales.Counts.{
  insert_accepted-Adds, insert_rejected-Adds, validate_rows-count, parse_sales_csv-nonempty,
}

-- The rows of data that the csv module finds in a file.
abbrev pub data_rows : CsvText → ℕ
data_rows (csv fieldnames rows breaks) = length rows
data_rows _ = 0

-- The batch of an upload of a file with so many rows of data, and the tables before and after.
pub record Stored (user : ℕ) (hash : Text) (file_rows : ℕ) (before after_it : Db) (b : Batch)
    : Type 0 where
  pub whole_file : b.total_rows ≡ file_rows
  pub nonempty : 0 < b.total_rows
  pub all_rows : b.accepted_rows + b.rejected_rows ≡ b.total_rows
  pub status : b.status ≡ (if b.rejected_rows == 0 then completed else completed_with_errors)
  pub transactions : length after_it.transactions ≡ length before.transactions + b.accepted_rows
  pub rejected : length after_it.rejected ≡ length before.rejected + b.rejected_rows
  pub listed : any (has_file user hash) after_it.batches ≡ true

parsed_rows-length : (i : ℕ) (rows : List RawRow) → length (parsed_rows i rows) ≡ length rows
parsed_rows-length i [] = refl
parsed_rows-length i (r ∷ rows) = ground (arith, parsed_rows-length (suc i) rows)

read_rows-length :
    (text : CsvText) (rows : List ParsedRow)
    → read_rows text ≡ ok rows
    → length rows ≡ data_rows text
read_rows-length not_utf8 rows h = cc
read_rows-length no_header rows h = cc
read_rows-length header_error rows h = cc
read_rows-length (csv fieldnames [] breaks) rows h = ground arith
read_rows-length (csv fieldnames (r ∷ rs) breaks) rows h = ground (arith, parsed_rows-length 3 rs)

parse_sales_csv-length :
    (files : Files) (content : List ℕ) (rows : List ParsedRow)
    → parse_sales_csv files content ≡ ok rows
    → length rows ≡ data_rows (files.read_csv content)
unfolding parse_sales_csv
parse_sales_csv-length files content rows h = read_rows-length (files.read_csv content) rows h

calculate_upload_status-nonempty :
    (a r : ℕ)
    → 0 < a + r
    → calculate_upload_status a r ≡ (if r == 0 then completed else completed_with_errors)
unfolding calculate_upload_status
calculate_upload_status-nonempty a r h = ground arith

closed_listed :
    (user : ℕ) (hash : Text) (id : ℕ) (status : UploadStatus) (total a r done_at now : ℕ)
    (bs : List Batch)
    → any (has_file user hash) bs ≡ true
    → any (has_file user hash) (map (close_if id (closed_batch status total a r done_at now)) bs)
      ≡ true
closed_listed user hash id status total a r done_at now [] h = cc
closed_listed user hash id status total a r done_at now (c ∷ bs) h =
    ground (arith, closed_listed user hash id status total a r done_at now bs)

last_listed :
    (user : ℕ) (hash : Text) (bs : List Batch) (b : Batch)
    → has_file user hash b ≡ true
    → any (has_file user hash) (bs ++ b ∷ []) ≡ true
last_listed user hash [] b h = ground arith
last_listed user hash (c ∷ bs) b h = ground (arith, last_listed user hash bs b)

own_file : (user : ℕ) (hash : Text) → (user == user && same_text hash hash) ≡ true
own_file user hash = let e = same_text_refl hash in ground arith

module _ (user : ℕ) (filename hash : Text) (products : List Product) (total : ℕ) (split : Split)
    (counted : length split.accepted + length split.rejected ≡ total) (some_row : 0 < total) where
  store_upload-Stored :
      (now : ℕ) (s : Session Db)
      → Returns
          (λ b t. Stored user hash total s.current t.committed b)
          (store_upload user filename hash products total split now s)
  unfolding store_upload create_upload_batch update_upload_batch_status utc_now commit
  store_upload-Stored now s =
      let id = s.current.next_id in
      let opened = (create_upload_batch user filename hash total now s).1 in
      bind-Returns
        (when_some split.accepted (
          create_sales_transactions_bulk
            (map (transaction_values user id products) split.accepted)))
        _ opened
        (λ u₁ s₁ bought.
          let (n₁, m₁, b₁) =
            (insert_accepted-Adds (transaction_values user id products) split.accepted
                opened).returned
              u₁ s₁ bought in
          bind-Returns
            (when_some split.rejected
              (create_rejected_rows_bulk (map (rejected_row_values user id) split.rejected)))
            _ s₁
            (λ u₂ s₂ turned.
              let (n₂, m₂, b₂) =
                (insert_rejected-Adds (rejected_row_values user id) split.rejected s₁).returned u₂
                  s₂ turned in
              ok-Returns _ _ (record {
                whole_file = refl;
                nonempty = some_row;
                all_rows = counted;
                status =
                    calculate_upload_status-nonempty (length split.accepted) (length split.rejected)
                      (rw counted some_row);
                transactions = omega arith;
                rejected = omega arith;
                listed =
                    closed_listed user hash id _ total (length split.accepted)
                      (length split.rejected) _ _ s₂.current.batches
                      (rw (b₂ ∙ b₁)
                        (last_listed user hash s.current.batches _ (own_file user hash)));
              })))

upload_sales_csv-Returns :
    (files : Files) (l : Locale) (user : ℕ) (filename : Text) (content_type : Option Text)
    (content : List ℕ) (name hash : Text) (s : Session Db)
    → validate_upload_file files filename content_type content ≡ ok (name, hash)
    → Returns
        (λ b t. Stored user hash (data_rows (files.read_csv content)) s.current t.committed b)
        (upload_sales_csv files l user filename content_type content s)
unfolding upload_sales_csv file_hash_exists_for_user get_products_by_sku_for_user utc_now
upload_sales_csv-Returns files l user filename content_type content name hash s fine = rw fine (
    raise_if-Returns (any (has_file user hash) s.current.batches) _ _ s (λ fresh.
      lift-Returns (parse_sales_csv files content) _ s (λ rows read.
        rw (sym (parse_sales_csv-length files content rows read)) (
          let products =
            products_of user (collect_normalized_skus l.casing rows) s.current.products in
          lift-Returns (validate_rows l (map (λ p. p.normalized_sku) products) rows) _ s
            (λ split sorted.
              try-Returns
                (store_upload user name hash products (length rows) split (s.clock s.reads))
                is_app_error (tick s)
                (store_upload-Stored user name hash products (length rows) split
                  (validate_rows-count l (map (λ p. p.normalized_sku) products) rows split sorted)
                  (parse_sales_csv-nonempty files content rows read) (s.clock s.reads)
                  (tick s)))))))

repeated :
    (files : Files) (l : Locale) (user : ℕ) (filename : Text) (content_type : Option Text)
    (content : List ℕ) (name hash : Text) (s : Session Db)
    → validate_upload_file files filename content_type content ≡ ok (name, hash)
    → any (has_file user hash) s.current.batches ≡ true
    → upload_sales_csv files l user filename content_type content s ≡ (err duplicate_upload, s)
unfolding upload_sales_csv file_hash_exists_for_user
repeated files l user filename content_type content name hash s fine listed = rw (fine, listed) refl

-- An upload that returns a batch has counted the rows of data that the csv module finds in the file, one
-- at least, in total_rows; accepted_rows and rejected_rows add up to them, and so many transactions and
-- rejected rows have been added to the tables; the batch is completed, with errors when a row was rejected, and never failed; and uploading the same file
-- again by the same user is refused as a duplicate and changes nothing.
pub upload_sales_csv-Stored :
    (files : Files) (l : Locale) (user : ℕ) (filename : Text) (content_type : Option Text)
    (content : List ℕ) (name hash : Text) (clock : ℕ → ℕ) (db : Db) (b : Batch)
    → validate_upload_file files filename content_type content ≡ ok (name, hash)
    → (upload_sales_csv files l user filename content_type content (open_session clock db)).0 ≡ ok b
    → let upload = upload_sales_csv files l user filename content_type content in
      Stored user hash (data_rows (files.read_csv content)) db (after upload clock db) b
      × ((later : ℕ → ℕ)
          → (upload (open_session later (after upload clock db))).0 ≡ err duplicate_upload)
      × ((later : ℕ → ℕ) → after upload later (after upload clock db) ≡ after upload clock db)
upload_sales_csv-Stored files l user filename content_type content name hash clock db b fine h =
    let upload = upload_sales_csv files l user filename content_type content in
    let stored =
      (upload_sales_csv-Returns files l user filename content_type content name hash
          (open_session clock db) fine).returned
        b (upload (open_session clock db)).1 (rw h refl) in
    let again = λ (later : ℕ → ℕ).
      repeated files l user filename content_type content name hash
        (open_session later (after upload clock db)) fine stored.listed in
    (stored, λ later. ap (λ o. o.0) (again later), λ later. ap (λ o. (o.1).committed) (again later))

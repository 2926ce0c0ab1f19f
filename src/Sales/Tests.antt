-- ===== src/Sales/Tests.antt =====
-- The theorems on uploads at a concrete file.
use invora_api.Base.{ℕ, ◌≡◌, refl, true, false, none, some, [], ◌∷◌, pos}
use invora_api.Text.{Text, codes, normalize}
use invora_api.Decimal.{parse_decimal, is_nonpositive, exponent_below, quantize, is_negative}
use invora_api.Result.{ok, err}
use invora_api.Exec.Keeps.{open_session, after}
use invora_api.Exec.Transaction.{utc_now, commit}
use invora_api.Products.Rows.{Product}
use invora_api.Sales.Status.{duplicate_upload}
use invora_api.Sales.Upload.{
  Files, RawRow, regular, csv, ParsedRow, validate_upload_file, parse_sales_csv,
}
use invora_api.Sales.Row.{Locale, ValidRow, valid, validate_sales_row}
use invora_api.Sales.Rows.{Batch, Db, completed_with_errors}
use invora_api.Sales.Service.{upload_sales_csv, collect_normalized_skus, validate_rows}
use invora_api.Sales.Stored.{Stored, upload_sales_csv-Stored}
use invora_api.Sales.Valid.{Accepted, validate_sales_row-Accepted}

abbrev plain_locale : Locale
plain_locale = record {
  casing = record { upper = λ t. t; casefold = λ t. t };
  strptime = λ format value. some 20;
}

abbrev sale : Text → RawRow
sale sku = regular (
    (codes "sale_date", some (codes "2026-07-01"))
    ∷ (codes "product_sku", some sku)
    ∷ (codes "quantity", some (codes "2.5"))
    ∷ (codes "unit_price", some (codes "3"))
    ∷ [])

-- A file of two rows, the second with a SKU that the user has not.
abbrev two_rows : Files
two_rows = record {
  name = λ t. t;
  sha256 = λ content. content;
  read_csv = λ content.
      csv (codes "sale_date" ∷ codes "Product_SKU" ∷ codes "quantity" ∷ codes "unit_price" ∷ [])
        (sale (codes "A1") ∷ sale (codes "B2") ∷ []) false;
}

abbrev milk : Product
milk = record {
  id = 1;
  user_id = 7;
  category_id = none;
  name = codes "Milk";
  normalized_name = codes "milk";
  sku = codes "A1";
  normalized_sku = codes "A1";
  description = none;
  unit = codes "liter";
  selling_price = pos 300;
  cost_price = none;
  is_active = true;
  updated_at = 0;
}

abbrev one_product : Db
one_product = record {
  products = milk ∷ [];
  batches = [];
  transactions = [];
  rejected = [];
  next_id = 2;
}

abbrev ticking : ℕ → ℕ
ticking n = n

abbrev uploaded : Batch
uploaded = record {
  id = 2;
  user_id = 7;
  original_filename = codes "s.csv";
  file_hash = codes "x";
  status = completed_with_errors;
  total_rows = 2;
  accepted_rows = 1;
  rejected_rows = 1;
  started_at = 0;
  completed_at = some 2;
  failed_for_reason = false;
  updated_at = 3;
}

file_fine :
    validate_upload_file two_rows (codes "s.csv") none (codes "x") ≡ ok (codes "s.csv", codes "x")
unfolding validate_upload_file
file_fine = refl

uploads :
    (upload_sales_csv two_rows plain_locale 7
      (codes "s.csv")
      none
      (codes "x")
      (open_session ticking one_product)).0
    ≡ ok uploaded
unfolding upload_sales_csv parse_sales_csv collect_normalized_skus validate_rows utc_now commit
    parse_decimal is_nonpositive exponent_below quantize is_negative
uploads = refl

upload_sales_csv-Stored_example :
    let upload = upload_sales_csv two_rows plain_locale 7 (codes "s.csv") none (codes "x") in
    Stored 7 (codes "x") 2 one_product (after upload ticking one_product) uploaded
    × ((later : ℕ → ℕ)
        → (upload (open_session later (after upload ticking one_product))).0 ≡ err duplicate_upload)
    × ((later : ℕ → ℕ)
        → after upload later (after upload ticking one_product) ≡ after upload ticking one_product)
upload_sales_csv-Stored_example =
    upload_sales_csv-Stored two_rows plain_locale 7 (codes "s.csv") none (codes "x") (codes "s.csv")
      (codes "x") ticking one_product uploaded file_fine uploads

abbrev first_row : ParsedRow
first_row = record {
  row_number = 2;
  raw_data =
      (codes "sale_date", codes "2026-07-01")
      ∷ (codes "product_sku", codes "A1")
      ∷ (codes "quantity", codes "2.5")
      ∷ (codes "unit_price", codes "3")
      ∷ [];
}

abbrev sold : ValidRow
sold = record {
  row_number = 2;
  product_sku = codes "A1";
  sale_date = 20;
  quantity = pos 2500;
  unit_price = some (pos 300);
  total_amount = some (pos 750);
  customer_name = none;
  channel = none;
  notes = none;
}

accepts : validate_sales_row plain_locale (codes "A1" ∷ []) first_row ≡ ok (valid sold)
unfolding validate_sales_row normalize parse_decimal is_nonpositive exponent_below quantize
    is_negative
accepts = refl

validate_sales_row-Accepted_example : Accepted (codes "A1" ∷ []) first_row sold
validate_sales_row-Accepted_example =
    validate_sales_row-Accepted plain_locale (codes "A1" ∷ []) first_row sold accepts

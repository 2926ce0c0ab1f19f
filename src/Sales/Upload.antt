-- ===== src/Sales/Upload.antt =====
-- app/modules/sales/domain/upload.py: the file of an upload and the rows of its CSV text. A `dict` is a
-- list of its entries, bytes are numbers.
use invora_api.Base.{
  ℕ, suc, ◌*◌, Bool, true, false, ◌&&◌, ◌||◌, not, Option, none, some, List, [], ◌∷◌, ◌++◌, map,
  all, length, take, reverse, leb, ltb, ◌==◌, if◌then◌else◌,
}
use invora_api.Text.{Text, codes, same_text, is_in, lower, normalize, split_on}
use invora_api.Result.{Result, ok, err, reject_if, ◌>>◌}
use invora_api.Sales.Status.{
  SalesError, invalid_upload_file, upload_file_too_large, missing_csv_columns, invalid_csv_format,
}

-- A row as `csv.DictReader` gives it: its fields by header, None where the row is short; or a row with
-- more fields than headers, which has a None key, as `str` writes it.
pub data RawRow : Type 0 where
  regular : List (Text × Option Text) → RawRow
  overlong : Text → RawRow

-- How reading a file goes: its bytes are no UTF-8, it has no header, the header cannot be read, or there
-- are its header and its rows, after which the reader may raise a `csv.Error`.
pub data CsvText : Type 0 where
  not_utf8 no_header header_error : CsvText
  csv : (fieldnames : List Text) (rows : List RawRow) (breaks : Bool) → CsvText

-- `PureWindowsPath(t).name`, `hashlib.sha256(content).hexdigest()`, and the csv module.
pub record Files : Type 0 where
  pub name : Text → Text
  pub sha256 : List ℕ → Text
  pub read_csv : List ℕ → CsvText

-- [A-Za-z0-9._-]
abbrev pub is_name_char : ℕ → Bool
is_name_char c =
    leb 65 c && leb c 90
    || leb 97 c && leb c 122
    || leb 48 c && leb c 57
    || c == 46
    || c == 95
    || c == 45

-- `re.sub(r"[^A-Za-z0-9._-]+", "_", t)`, where the flag tells of the character before.
unfoldable pub underscore_runs : Bool → Text → Text
underscore_runs in_run [] = []
underscore_runs in_run (c ∷ t) =
    let inside = underscore_runs true t in
    let outside = underscore_runs false t in
    if is_name_char c then c ∷ outside else (if in_run then inside else 95 ∷ inside)

unfoldable pub drop_edge : Text → Text
drop_edge [] = []
drop_edge (c ∷ t) = let rest = drop_edge t in if c == 46 || c == 95 then rest else c ∷ t

-- `t.strip("._")`
unfoldable pub strip_edge : Text → Text
unfolding drop_edge
strip_edge t = reverse (drop_edge (reverse (drop_edge t)))

-- The part before the last dot, in reverse, and the part after it.
unfoldable pub rpartition : Text → Text → Option (Text × Text)
rpartition suffix [] = none
rpartition suffix (c ∷ t) =
    let rest = rpartition (c ∷ suffix) t in if c == 46 then some (t, suffix) else rest

abbrev shorten_at : Text → Option (Text × Text) → Text
shorten_at t none = take 255 t
shorten_at t (some (stem, suffix)) = take 240 (reverse stem) ++ 46 ∷ take 10 suffix

abbrev default_name : Text
default_name = codes "sales_upload.csv"

abbrev pub or_default : Text → Text
or_default [] = default_name
or_default (c ∷ t) = c ∷ t

unfoldable pub sanitize_filename : Files → Text → Text
unfolding underscore_runs strip_edge rpartition
sanitize_filename files filename =
    let cleaned =
      or_default (strip_edge (underscore_runs false (files.name (or_default filename)))) in
    if ltb 255 (length cleaned)
    then shorten_at cleaned (rpartition [] (reverse cleaned))
    else cleaned

abbrev pub max_upload_bytes : ℕ
max_upload_bytes = 5 * 1024 * 1024

-- ALLOWED_CONTENT_TYPES
abbrev pub allowed_content_types : List Text
allowed_content_types =
    codes "text/csv"
    ∷ codes "application/csv"
    ∷ codes "application/vnd.ms-excel"
    ∷ codes "application/octet-stream"
    ∷ codes "text/plain"
    ∷ []
    ∷ []

abbrev ends_with : Text → Text → Bool
ends_with suffix t = same_text (reverse (take (length suffix) (reverse t))) suffix

abbrev first_part : List Text → Text
first_part [] = []
first_part (w ∷ ws) = w

-- `(content_type or "").split(";")[0].strip().lower()`
abbrev pub content_type_of : Option Text → Text
content_type_of none = []
content_type_of (some t) = normalize (first_part (split_on 59 t))

unfoldable pub validate_upload_file :
    Files → Text → Option Text → List ℕ → Result SalesError (Text × Text)
unfolding sanitize_filename lower normalize split_on
validate_upload_file files filename content_type content = do
  let safe_name = sanitize_filename files filename
  reject_if (not (ends_with (codes ".csv") (lower safe_name))) invalid_upload_file
  reject_if (ltb max_upload_bytes (length content)) upload_file_too_large
  reject_if (length content == 0) invalid_upload_file
  reject_if (not (is_in (content_type_of content_type) allowed_content_types)) invalid_upload_file
  ok (safe_name, files.sha256 content)

pub record ParsedRow : Type 0 where
  pub row_number : ℕ
  pub raw_data : List (Text × Text)

-- REQUIRED_COLUMNS
abbrev pub required_columns : List Text
required_columns = codes "sale_date" ∷ codes "product_sku" ∷ codes "quantity" ∷ []

abbrev pub distinct : List Text → Bool
distinct [] = true
distinct (t ∷ ts) = not (is_in t ts) && distinct ts

abbrev pub max_csv_rows : ℕ
max_csv_rows = 100_000

abbrev or_blank : Option Text → Text
or_blank none = []
or_blank (some t) = t

abbrev pub parsed_row : ℕ → RawRow → ParsedRow
parsed_row index (overlong t) = record { row_number = index; raw_data = (codes "_raw", t) ∷ [] }
parsed_row index (regular fields) = record {
  row_number = index;
  raw_data = map (λ f. (normalize f.0, or_blank f.1)) fields;
}

-- The rows are numbered from 2, and there are at most `max_csv_rows` of them.
abbrev pub parsed_rows : ℕ → List RawRow → List ParsedRow
parsed_rows index [] = []
parsed_rows index (r ∷ rs) = parsed_row index r ∷ parsed_rows (suc index) rs

abbrev pub read_rows : CsvText → Result SalesError (List ParsedRow)
read_rows not_utf8 = err invalid_csv_format
read_rows no_header = err invalid_csv_format
read_rows header_error = err invalid_csv_format
read_rows (csv fieldnames rows breaks) =
    let headers = map normalize fieldnames in
    do
      reject_if (ltb 32 (length fieldnames)) invalid_csv_format
      reject_if (not (all (λ c. is_in c headers) required_columns)) missing_csv_columns
      reject_if (not (distinct headers)) invalid_csv_format
      reject_if (ltb max_csv_rows (length rows)) invalid_csv_format
      reject_if breaks invalid_csv_format
      reject_if (length rows == 0) invalid_csv_format
      ok (parsed_rows 2 rows)

unfoldable pub parse_sales_csv : Files → List ℕ → Result SalesError (List ParsedRow)
unfolding normalize
parse_sales_csv files content = read_rows (files.read_csv content)

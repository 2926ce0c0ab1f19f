-- ===== src/Sales/Counts.antt =====
-- How many rows of an upload are accepted, rejected and stored.
use invora_api.Base.{
  ℕ, suc, ◌+◌, ◌<◌, ◌≡◌, refl, ap, sym, ◌∙◌, List, [], ◌∷◌, map, length, length-map, length-append,
  all, arith, inl, inr, Bool-cases,
}
use invora_api.Result.{Result, ok, err}
use invora_api.Text.{Text}
use invora_api.Exec.Session.{Session}
use invora_api.Exec.Transaction.{refuse}
use invora_api.Exec.Returns.{Returns, ok-Returns, err-Returns}
use invora_api.Sales.Status.{SalesError, numeric_overflow}
use invora_api.Sales.Upload.{
  Files, CsvText, not_utf8, no_header, header_error, csv, ParsedRow, read_rows, parse_sales_csv,
}
use invora_api.Sales.Row.{
  Locale, ValidRow, RejectedRow, Validated, valid, rejected, validate_sales_row,
}
use invora_api.Sales.Rows.{
  Db, SalesTransaction, RejectedRowRecord, numbered, transaction_fits,
  create_sales_transactions_bulk, create_rejected_rows_bulk,
}
use invora_api.Sales.Service.{Split, then_sort, sort_in, validate_rows, when_some}

sorted_count :
    (v : Result SalesError Validated) (later : Result SalesError Split) (split : Split) (n : ℕ)
    → ((s : Split) → later ≡ ok s → length s.accepted + length s.rejected ≡ n)
    → then_sort v later ≡ ok split
    → length split.accepted + length split.rejected ≡ suc n
sorted_count (err e) later split n h k = cc
sorted_count (ok v) (err e) split n h k = cc
sorted_count (ok (valid row)) (ok s) split n h k =
    let before = h s refl in let e : sort_in (valid row) s ≡ split = cc in rw (sym e) (omega arith)
sorted_count (ok (rejected row)) (ok s) split n h k =
    let before = h s refl in
    let e : sort_in (rejected row) s ≡ split = cc in rw (sym e) (omega arith)

-- Every row is accepted or rejected.
pub validate_rows-count :
    (l : Locale) (known : List Text) (rows : List ParsedRow) (split : Split)
    → validate_rows l known rows ≡ ok split
    → length split.accepted + length split.rejected ≡ length rows
unfolding validate_rows
validate_rows-count l known [] split h =
    let e : record { accepted = []; rejected = [] } ≡ split = cc in rw (sym e) (omega arith)
validate_rows-count l known (row ∷ rows) split h =
    sorted_count (validate_sales_row l known row) (validate_rows l known rows) split (length rows)
      (λ s k. validate_rows-count l known rows s k) h

-- A file that is read has a row.
pub parse_sales_csv-nonempty :
    (files : Files) (content : List ℕ) (rows : List ParsedRow)
    → parse_sales_csv files content ≡ ok rows
    → 0 < length rows
unfolding parse_sales_csv
parse_sales_csv-nonempty files content rows = go (files.read_csv content)
  where
    go : (c : CsvText) → read_rows c ≡ ok rows → 0 < length rows
    go not_utf8 h = cc
    go no_header h = cc
    go header_error h = cc
    go (csv names [] breaks) h = ground arith
    go (csv names (r ∷ rs) breaks) h = ground arith

length-numbered : (id : ℕ) (ts : List SalesTransaction) → length (numbered id ts) ≡ length ts
length-numbered id [] = refl
length-numbered id (t ∷ ts) = ap suc (length-numbered (id + 1) ts)

-- What an insert adds to the transactions and to the rejected rows.
abbrev pub Adds : Session Db → ℕ → ℕ → Unit {0} → Session Db → Type 0
Adds s bought turned_away u t =
    (length t.current.transactions ≡ length s.current.transactions + bought)
    × (length t.current.rejected ≡ length s.current.rejected + turned_away)
    × (t.current.batches ≡ s.current.batches)

create_transactions-Adds :
    (ts : List SalesTransaction) (s : Session Db)
    → Returns (Adds s (length ts) 0) (create_sales_transactions_bulk ts s)
unfolding create_sales_transactions_bulk refuse
create_transactions-Adds ts s = elim (Bool-cases (all transaction_fits ts)) [
  | inl fits ↦ rw fits (
      ok-Returns tt _ (
        length-append s.current.transactions (numbered s.current.next_id ts)
            ∙ ap (λ n. length s.current.transactions + n) (length-numbered s.current.next_id ts),
        omega arith,
        refl,
      ))
  | inr outside ↦ rw outside (err-Returns numeric_overflow _)
]

pub insert_accepted-Adds :
    (f : ValidRow → SalesTransaction) (rows : List ValidRow) (s : Session Db)
    → Returns
        (Adds s (length rows) 0)
        (when_some rows (create_sales_transactions_bulk (map f rows)) s)
insert_accepted-Adds f [] s = ok-Returns tt s (omega arith, omega arith, refl)
insert_accepted-Adds f (row ∷ rows) s =
    rw (sym (length-map f (row ∷ rows))) (create_transactions-Adds (map f (row ∷ rows)) s)

pub insert_rejected-Adds :
    (f : RejectedRow → RejectedRowRecord) (rows : List RejectedRow) (s : Session Db)
    → Returns (Adds s 0 (length rows)) (when_some rows (create_rejected_rows_bulk (map f rows)) s)
unfolding create_rejected_rows_bulk
insert_rejected-Adds f [] s = ok-Returns tt s (omega arith, omega arith, refl)
insert_rejected-Adds f (row ∷ rows) s = ok-Returns tt _ (
  omega arith,
  length-append s.current.rejected (map f (row ∷ rows))
      ∙ ap (λ n. length s.current.rejected + n) (length-map f (row ∷ rows)),
  refl,
)

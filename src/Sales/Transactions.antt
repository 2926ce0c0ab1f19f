-- ===== src/Sales/Transactions.antt =====
-- SalesTransactionService of app/modules/sales/application/service.py, with the values of
-- domain/transactions.py and the methods of SalesTransactionRepository.
use invora_api.Base.{
  ℕ, ℤ, Bool, true, false, ◌&&◌, ◌||◌, Option, none, some, is_none, is_some, if◌then◌else◌,
}
use invora_api.Text.{Text}
use invora_api.Result.{Result, ok, err, reject_if, map_err, ◌>>=◌, ◌>>◌}
use invora_api.Decimal.{
  Decimal, is_nonpositive, is_negative, exponent_below, at_least, quantize, parse_decimal,
}
use invora_api.Sales.Status.{
  SalesError, fault, invalid_transaction_field, invalid_transaction_quantity,
  invalid_transaction_price,
}
use invora_api.Sales.Row.{amount_of, normalize_optional_text}

-- A number of a request: None, a `Decimal` or a text.
pub data Amount : Type 0 where
  null : Amount
  decimal : Decimal → Amount
  text : Text → Amount

abbrev parsed : SalesError → Option Decimal → Result SalesError Decimal
parsed e none = err e
parsed e (some d) = ok d

-- `Decimal(str(value))`
abbrev to_decimal : SalesError → Amount → Result SalesError Decimal
to_decimal e null = err e
to_decimal e (decimal d) = ok d
to_decimal e (text t) = parsed e (parse_decimal t)

unfoldable pub validate_quantity : Amount → Result SalesError ℤ
validate_quantity value = do
  d ← to_decimal invalid_transaction_quantity value
  nonpositive ← map_err fault (is_nonpositive d)
  reject_if nonpositive invalid_transaction_quantity
  fine ← map_err fault (exponent_below 3 d)
  reject_if fine invalid_transaction_quantity
  large ← map_err fault (at_least 100_000_000_000 d)
  reject_if large invalid_transaction_quantity
  map_err fault (quantize 3 d)

unfoldable pub check_amount : Decimal → Result SalesError (Option ℤ)
check_amount d = do
  negative ← map_err fault (is_negative d)
  reject_if negative invalid_transaction_price
  fine ← map_err fault (exponent_below 2 d)
  reject_if fine invalid_transaction_price
  large ← map_err fault (at_least 100_000_000_000 d)
  reject_if large invalid_transaction_price
  cents ← map_err fault (quantize 2 d)
  ok (some cents)

unfoldable pub validate_money : Amount → Result SalesError (Option ℤ)
unfolding check_amount
validate_money null = ok none
validate_money (decimal d) = check_amount d
validate_money (text t) = do d ← parsed invalid_transaction_price (parse_decimal t); check_amount d

unfoldable pub calculate_total_amount :
    ℤ → Option ℤ → Option ℤ → (recalculate : Bool) → Result SalesError (Option ℤ)
unfolding amount_of
calculate_total_amount quantity none total true = ok none
calculate_total_amount quantity none total false = ok total
calculate_total_amount quantity (some price) (some total) false = ok (some total)
calculate_total_amount quantity (some price) _ _ = do
  total ← map_err fault (amount_of quantity price)
  ok (some total)

-- The values of a request that creates a transaction; the schemas make the date a date.
pub record CreateValues : Type 0 where
  pub product_id : ℕ
  pub sale_date : ℕ
  pub quantity : Amount
  pub unit_price : Amount
  pub total_amount : Amount
  pub customer_name : Option Text
  pub channel : Option Text
  pub notes : Option Text

pub record Values : Type 0 where
  pub product_id : ℕ
  pub sale_date : ℕ
  pub quantity : ℤ
  pub unit_price : Option ℤ
  pub total_amount : Option ℤ
  pub customer_name : Option Text
  pub channel : Option Text
  pub notes : Option Text

unfoldable pub normalize_transaction_create_values : CreateValues → Result SalesError Values
unfolding validate_quantity validate_money calculate_total_amount normalize_optional_text
normalize_transaction_create_values v = do
  quantity ← validate_quantity v.quantity
  unit_price ← validate_money v.unit_price
  given ← validate_money v.total_amount
  total_amount ← calculate_total_amount quantity unit_price given false
  ok (record {
    product_id = v.product_id;
    sale_date = v.sale_date;
    quantity = quantity;
    unit_price = unit_price;
    total_amount = total_amount;
    customer_name = normalize_optional_text v.customer_name 255;
    channel = normalize_optional_text v.channel 64;
    notes = normalize_optional_text v.notes 1000;
  })

-- The values of an update: `none` is a field that the request leaves out.
pub record UpdateValues : Type 0 where
  pub product_id : Option ℕ
  pub sale_date : Option ℕ
  pub quantity : Option Amount
  pub unit_price : Option Amount
  pub total_amount : Option Amount
  pub customer_name : Option (Option Text)
  pub channel : Option (Option Text)
  pub notes : Option (Option Text)

abbrev is_empty_update : UpdateValues → Bool
is_empty_update v =
    is_none v.product_id
    && is_none v.sale_date
    && is_none v.quantity
    && is_none v.unit_price
    && is_none v.total_amount
    && is_none v.customer_name
    && is_none v.channel
    && is_none v.notes

abbrev set_or : {A B : Type 0} → B → Option A → (A → Result SalesError B) → Result SalesError B
set_or old none f = ok old
set_or old (some a) f = f a

abbrev text_or : ℕ → Option Text → Option (Option Text) → Option Text
text_or max_length old none = old
text_or max_length old (some t) = normalize_optional_text t max_length

abbrev value_or : ℕ → Option ℕ → ℕ
value_or old none = old
value_or old (some n) = n

-- The values that the row has after the update: a field that is left out stays, and the total is
-- calculated anew where the quantity or the price is set and the total is not.
unfoldable pub normalize_transaction_update_values :
    UpdateValues → Values → Result SalesError Values
unfolding validate_quantity validate_money calculate_total_amount normalize_optional_text
normalize_transaction_update_values v current = do
  quantity ← set_or current.quantity v.quantity validate_quantity
  unit_price ← set_or current.unit_price v.unit_price validate_money
  given ← set_or current.total_amount v.total_amount validate_money
  reject_if (is_empty_update v) invalid_transaction_field
  total_amount ←
      if is_none v.total_amount && (is_some v.quantity || is_some v.unit_price)
      then calculate_total_amount quantity unit_price current.total_amount true
      else ok given
  ok (record {
    product_id = value_or current.product_id v.product_id;
    sale_date = value_or current.sale_date v.sale_date;
    quantity = quantity;
    unit_price = unit_price;
    total_amount = total_amount;
    customer_name = text_or 255 current.customer_name v.customer_name;
    channel = text_or 64 current.channel v.channel;
    notes = text_or 1000 current.notes v.notes;
  })

-- ===== src/Sales/Status.antt =====
-- app/modules/sales/domain/exceptions.py: the exceptions by class, and those that no
-- handler catches: faults of `Decimal`, and a number out of the range of its column.
use invora_api.Base.{Bool, true, false}
use invora_api.Decimal.{DecimalFault}

pub data SalesError : Type 0 where
  invalid_upload_file upload_file_too_large missing_csv_columns invalid_csv_format : SalesError
  duplicate_upload : SalesError
  transaction_not_found transaction_product_not_found transaction_already_deleted : SalesError
  invalid_transaction_field invalid_transaction_quantity invalid_transaction_price : SalesError
  fault : DecimalFault → SalesError
  numeric_overflow : SalesError

-- `isinstance(exc, AppError)`
abbrev pub is_app_error : SalesError → Bool
is_app_error (fault _) = false
is_app_error numeric_overflow = false
is_app_error _ = true

-- ===== src/Products/Status.antt =====
-- app/modules/products/domain/exceptions.py: the exceptions by class, and what no handler catches.
use invora_api.Base.{Bool, true, false}
use invora_api.Decimal.{DecimalFault}

pub data ProductError : Type 0 where
  duplicate_sku duplicate_category product_not_found category_not_found : ProductError
  invalid_field invalid_sku invalid_unit invalid_price : ProductError
  category_has_active_products invalid_sort_field : ProductError
  fault : DecimalFault → ProductError

-- `isinstance(exc, AppError)`
abbrev pub is_app_error : ProductError → Bool
is_app_error (fault _) = false
is_app_error _ = true

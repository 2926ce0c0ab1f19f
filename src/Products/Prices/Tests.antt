-- ===== src/Products/Prices/Tests.antt =====
-- A price at a concrete text.
use invora_api.Base.{◌≡◌, refl, pos, ◌≤ℤ◌, ◌<ℤ◌, some}
use invora_api.Text.{codes, normalize}
use invora_api.Result.{ok}
use invora_api.Decimal.{parse_decimal, is_negative, exponent_below, at_least, quantize}
use invora_api.Products.Values.{text, validate_price}
use invora_api.Products.Prices.{validate_price-bounds}

price_2_5 : validate_price (text (codes "2.5")) ≡ ok (some (pos 250))
unfolding validate_price normalize parse_decimal is_negative exponent_below at_least quantize
price_2_5 = refl

validate_price-bounds_example : (pos 0 ≤ℤ pos 250) × (pos 250 <ℤ pos 1_000_000_000_000)
validate_price-bounds_example = validate_price-bounds (text (codes "2.5")) (pos 250) price_2_5

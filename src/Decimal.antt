-- ===== src/Decimal.antt =====
-- Python's `decimal.Decimal` under its default context (28 digits, ROUND_HALF_EVEN), as far as the
-- domain rules use it: construction from text, order against whole numbers, `as_tuple().exponent`
-- and `quantize`.
mod Rounding
mod Value
mod Parse
unfoldable pub use Rounding.*
unfoldable pub use Value.*
unfoldable pub use Parse.*

-- ===== src/Text.antt =====
-- Python's `str` as the list of its code points, with the methods that the modules under
-- app/modules call: `strip`, `lower`, `split`, `" ".join`, `==` and `in` on a tuple of texts.
-- White space is Python's; case is that of the ASCII letters, other code points stay as they are.
mod Defs
mod Laws
mod Keys
unfoldable pub use Defs.*
pub use Laws.*
unfoldable pub use Keys.*

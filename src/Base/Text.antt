-- ===== src/Base/Text.antt =====
-- Python's `str` as its list of code points: the methods that the program calls, and their laws.
mod Defs
mod Find
mod Strip
unfoldable pub use Defs.{
  Text, codes, text_eq, is_space, lstrip, rstrip, strip, rcons, lower, starts_with, find,
}
pub use Defs.{text_eq_refl, text_eq→eq}
pub use Find.*
pub use Strip.*

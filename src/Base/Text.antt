-- ===== src/Base/Text.antt =====
-- Go strings as lists of bytes, and the parts of package strings that the program uses.
mod Defs
mod Laws
mod Numbers
unfoldable pub use Defs.*
pub use Laws.*
unfoldable pub use Numbers.*

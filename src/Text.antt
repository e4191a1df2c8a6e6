-- ===== src/Text.antt =====
-- Python's `str` as the list of its code points, with the operations that the program calls.
mod Defs
mod Contains
mod Split
mod Strip
unfoldable pub use Defs.*
unfoldable pub use Split.*
unfoldable pub use Strip.*
pub use Contains.*

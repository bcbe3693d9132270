-- ===== src/Common/Text.antt =====
-- The functions of Go's `strings` and `bytes` packages that the program calls, over byte lists.
mod Affix
mod Split
mod Search
mod Space
mod Decimal
mod Case
unfoldable pub use Affix.*
unfoldable pub use Split.*
unfoldable pub use Search.*
unfoldable pub use Space.*
unfoldable pub use Decimal.*
unfoldable pub use Case.*

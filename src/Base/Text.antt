-- ===== src/Base/Text.antt =====
-- Text as the list of its bytes, and what the program uses of Go's package strings. Case and white
-- space are those of ASCII.
mod Trim
mod Order
unfoldable pub use Trim.*
unfoldable pub use Order.*

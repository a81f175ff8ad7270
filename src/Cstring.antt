-- ===== src/Cstring.antt =====
-- NUL-terminated strings and the helpers of src/stringh.c. A C string is the list of its bytes before
-- the NUL.
mod Defs
mod Compare
pub mod Decimal
pub mod Strip
pub use Compare.*
pub use Defs.{Sign, sign_lt, sign_eq, sign_gt, is_zero, push}
unfoldable pub use Defs.{strncmp, streq, eqs, starts_with, before_nul}

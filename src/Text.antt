-- ===== src/Text.antt =====
-- What src/ uses of Rust's strings, over their UTF-8 bytes: `String::from_utf8`, `rsplit_once`,
-- `split_once`, `trim_matches`, the printing of integers and of IP addresses, and the parsing of
-- unsigned integers, `lines` and `trim`.
mod Utf8
mod Number
mod Split
mod Net
mod Lines
pub mod Lossy
pub mod Laws
unfoldable pub use Utf8.*
unfoldable pub use Number.*
unfoldable pub use Split.*
unfoldable pub use Net.*
unfoldable pub use Lines.*

-- ===== src/Common/Json.antt =====
-- Parsed JSON values, as `JSON.parse` returns them.
mod Print
unfoldable pub use Print.*
pub mod Value
unfoldable pub use Value.*

-- ===== src/Prelude.antt =====
-- The names that all modules share: those of the libraries, passed on, and those of the children.
mod Base
mod Int
unfoldable pub use Base.*
unfoldable pub use Int.*

-- ===== src/Middleware.antt =====
-- internal/adapters/middleware: the keys of the identity provider and the check of tokens.
mod Base64
mod Keys
mod Auth
mod Guard
pub mod Trust
pub mod Validator
pub mod Admitted
pub mod Secured
mod Tests
unfoldable pub use Base64.*
unfoldable pub use Keys.*
unfoldable pub use Auth.*
unfoldable pub use Guard.*

-- ===== src/Wager.antt =====
-- internal/wagertransaction: the transaction entity, and the checks of the service on references.
mod Defs
pub mod Lifecycle
pub mod Reference
pub mod Construction
mod Tests
unfoldable pub use Defs.*

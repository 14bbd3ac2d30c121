-- ===== src/WalletService.antt =====
-- internal/wallet/service.go: the operations on wallets over the database.
mod Defs
mod Compare
mod Ledger
pub mod Opening
pub mod Books
pub mod Change
pub mod Pages
pub mod Reconciling
pub mod Audit
pub mod Balanced
mod Tests
mod AuditTests
unfoldable pub use Defs.*
unfoldable pub use Compare.*
unfoldable pub use Ledger.*

-- ===== src/Wallet.antt =====
-- internal/wallet: the wallet entity, the ledger entry and the wallet service.
mod Defs
mod Entry
pub mod Balance
pub mod Identity
pub mod EntryMath
mod Tests
unfoldable pub use Defs.*
unfoldable pub use Entry.*

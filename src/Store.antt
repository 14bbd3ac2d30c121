-- ===== src/Store.antt =====
-- internal/infra/db and migrations: the tables, the SQL statements and database transactions.
mod Events
mod Schema
mod Rows
mod TransactionRows
mod Session
mod WalletRepo
mod LedgerRows
mod LedgerRepo
mod TransactionRepo
mod OutboxRepo
pub mod During
pub mod Runs
pub mod WalletPool
pub mod Succeeded
pub mod Writers
pub mod LostUpdate
mod LostUpdateTests
pub mod Locking
pub mod Throughout
pub mod Reconciled
pub mod Update
pub mod Invariant
pub mod Frame
pub mod Statements
unfoldable pub use Events.*
unfoldable pub use Schema.*
unfoldable pub use Rows.*
unfoldable pub use TransactionRows.*
unfoldable pub use Session.*
unfoldable pub use WalletRepo.*
unfoldable pub use LedgerRows.*
unfoldable pub use LedgerRepo.*
unfoldable pub use TransactionRepo.*
unfoldable pub use OutboxRepo.*

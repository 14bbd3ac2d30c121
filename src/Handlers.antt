-- ===== src/Handlers.antt =====
-- internal/adapters/handlers: the HTTP handlers over the two services.
mod Responses
mod Transactions
mod Wallets
mod Serve
pub mod Owners
pub mod Refusals
pub mod Shown
pub mod ShownWallets
pub mod ShownLedger
pub mod Isolation
pub mod Replayed
mod Tests
pub mod Reading
pub mod Invariant
unfoldable pub use Responses.*
unfoldable pub use Transactions.*
unfoldable pub use Wallets.*
unfoldable pub use Serve.*

-- ===== src/Workers.antt =====
-- internal/adapters/workers: the consumer of the queue and the worker on pending references.
mod Messages
mod References
mod Outbox
pub mod Delivery
pub mod Publishing
pub mod Starved
mod Tests
unfoldable pub use Messages.*
unfoldable pub use References.*
unfoldable pub use Outbox.*

-- ===== src/WagerService.antt =====
-- internal/wagertransaction/service.go: the processing of wager transactions over the database.
mod Events
mod Steps
mod Kinds
mod Resolve
mod Process
mod Run
pub mod Sound
pub mod Books
pub mod Replay
pub mod Fixtures
mod Tests
mod Scenarios
unfoldable pub use Events.*
unfoldable pub use Steps.*
unfoldable pub use Kinds.*
unfoldable pub use Resolve.*
unfoldable pub use Process.*
unfoldable pub use Run.*

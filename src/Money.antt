-- ===== src/Money.antt =====
-- internal/money/money.go and currency.go: amounts in minor units (cents) in an int64. `Parse` and `Print`
-- are ParseMoney and String; the other children have the proofs.
mod Defs
mod Parse
mod Print
pub mod Arithmetic
pub mod Decimal
pub mod Accepted
pub mod Codec
mod Tests
unfoldable pub use Defs.*
unfoldable pub use Parse.*
unfoldable pub use Print.*

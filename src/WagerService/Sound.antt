-- ===== src/WagerService/Sound.antt =====
-- Lemmas on service.go and the invariant of the database, for each function that writes or reads.
pub mod Statements
pub mod Reads
mod Steps
mod Refusals
mod Settling
mod Kinds
mod Reversals
mod Rows
mod Unresolved
mod Resolve
pub mod Process

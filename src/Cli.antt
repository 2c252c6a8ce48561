-- ===== src/Cli.antt =====
-- The package packages/cli: the program that looks up a file of documents and keeps its outcomes.
pub mod Store
pub mod Worker
pub mod Plan
mod Tests

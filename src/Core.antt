-- ===== src/Core.antt =====
-- The package packages/core: the code that looks one document up, shared by every program.
pub mod Doc
pub mod Types
pub mod Breaker
pub mod Policy
pub mod Session
pub mod Fetch
pub mod Osiptel
pub mod Proxy
mod Tests

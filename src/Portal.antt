-- ===== src/Portal.antt =====
-- The package packages/portal: the web portal's database, queue and sessions.
pub mod Breakers
pub mod Ephemeral
pub mod Throttle
pub mod Sessions
pub mod Slots
pub mod Queue
pub mod Planning
pub mod Accounts
pub mod Provisioning
pub mod Login
pub mod Credentials
pub mod Workers
mod Tests

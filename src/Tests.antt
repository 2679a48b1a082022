-- ===== src/Tests.antt =====
-- Runs of the theorems at concrete inputs, on a database in memory.
pub mod Types
pub mod Keys
pub mod Roles
pub mod Subscriptions
pub mod Settings
pub mod Groups
pub mod Queue
pub mod Versions
pub mod Sites
pub mod Bot
pub mod Messages
pub mod Notifying
pub mod Members
pub mod Kept
pub mod Dispatching
pub mod Commands

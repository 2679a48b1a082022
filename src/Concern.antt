-- ===== src/Concern.antt =====
-- lsp/concern: subscriptions of groups to ids of a site, and their configuration.
pub mod KeySet
pub mod StateManager
pub mod Config
pub mod Registry
pub mod Dispatch

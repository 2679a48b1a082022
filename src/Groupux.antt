-- ===== src/Groupux.antt =====
-- lsp/groupux: how much a group hears: policies, deduplication, digests and quiet hours.
pub mod Types
pub mod Policy
pub mod Assoc
pub mod Manager

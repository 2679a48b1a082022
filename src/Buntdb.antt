-- ===== src/Buntdb.antt =====
-- lsp/buntdb: the helpers over the key-value database.
pub mod Key
pub mod Interface
pub mod Options
pub mod ShortCut
pub mod Memory
pub mod Json

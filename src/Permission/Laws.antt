-- ===== src/Permission/Laws.antt =====
-- What the methods of lsp/permission do in a live transaction: roles, switches, silence.
pub mod Roles
pub mod Commands
pub mod Removal

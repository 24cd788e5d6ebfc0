-- ===== src/Session.antt =====
-- odoo_sheller/session.py: one live session over a bootstrap process.
pub mod Records
pub mod Rights
pub mod Window
pub mod Machine
pub mod Reader
pub mod Commands
pub mod Endings
pub mod Core
pub mod Ledger
pub mod Steps

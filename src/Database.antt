-- ===== src/Database.antt =====
-- app/database.py: the methods of `Database`, each one transaction on the tables.
pub mod Tasks
pub mod Presets
pub mod Migrations
pub mod Logs

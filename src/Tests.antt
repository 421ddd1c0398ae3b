-- ===== src/Tests.antt =====
-- Runs and instances of the theorems on a small installation.
pub mod Events
pub mod Fixtures
pub mod Rows
pub mod Requests
pub mod Rounds
pub mod PresetRows
pub mod Upkeep
pub mod MigrationRuns
pub mod StorageRuns
pub mod Listings
pub mod Slots

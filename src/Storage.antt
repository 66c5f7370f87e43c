-- ===== src/Storage.antt =====
-- The per-index stores of src/storage/: the reference graphs and their queries.
pub mod DocRefs
pub mod Calls
pub mod Imports
pub mod Types
pub mod Half
pub mod Index
pub mod Sqlite

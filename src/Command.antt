-- ===== src/Command.antt =====
-- cmd/uniqcol: the commands, but for the loading of rows, which is in Load.
pub mod Format
pub mod Queries
pub mod Loads
pub mod Pipeline
pub mod Inspect

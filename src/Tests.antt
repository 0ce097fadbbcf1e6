-- ===== src/Tests.antt =====
-- The theorems at concrete inputs.
mod Floating
mod Filters
mod Payloads
mod Tables
mod Segments
mod Reloads
mod Queries
mod Answers
mod Parses
mod Loads
mod Benches
mod Selects
mod Commands

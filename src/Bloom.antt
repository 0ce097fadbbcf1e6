-- ===== src/Bloom.antt =====
-- Package bloom (bloom/bloom.go), with FNV-1a of Go's hash/fnv.
pub mod Filter
pub mod Wire
pub mod Sizing
pub mod Rate

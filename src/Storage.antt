-- ===== src/Storage.antt =====
-- Package storage (storage/).
pub mod Codec
pub mod Types
pub mod Buffer
pub mod Table
pub mod Segment

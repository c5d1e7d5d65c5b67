-- ===== src/Codec.antt =====
-- Text encodings that the client writes out itself.
pub mod Hex
pub mod Decimal
pub mod Pairs

-- ===== src/Encoding.antt =====
-- The encodings of Go's standard library that the program uses.
pub mod Hex
pub mod Utf8

-- ===== src/Bytes.antt =====
-- Byte strings as lists of numbers: `to_be_bytes`, `from_be_bytes`, and a bounds-checked reader.
-- A reader of the source is a slice with a position; here it is what is left of the slice.
pub mod BigEndian
pub mod Reader
pub mod Parts
pub mod Steps

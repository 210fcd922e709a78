-- ===== src/Benc.antt =====
-- benc/benc.c: the reader of bencoded data. A pointer into the data is a position in the object
-- `buf` that holds it, with its terminator; the offsets that the functions return are relative to
-- that position. Positions are integers, since a failed length makes the code step backwards.
pub mod Scan
pub mod Length
pub mod Value
pub mod Shape
pub mod Offset
pub mod Lookup
mod Tests

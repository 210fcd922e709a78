-- ===== src/Encoding.antt =====
-- encoding.c: search in a string, and the decoders and encoders of hashes and peer ids.
-- A decoder works in place: one index reads, another that is never ahead of it writes.
pub mod CharIndex
pub mod Digits
pub mod InPlace
pub mod Hex
pub mod Url
pub mod Chain
mod Tests

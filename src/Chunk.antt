-- ===== src/Chunk.antt =====
-- Precompiled chunks (lua-5.1.5/src/ldump.c, lundump.c): the format, its writer and its reader.
pub mod Proto
pub mod Bytes
pub mod Header
pub mod Dump
pub mod Undump
pub mod Format
pub mod Blocks
pub mod Writes
pub mod Failure
pub mod Loads
pub mod Fits
pub mod Loaded
pub mod Checked
pub mod Nesting
pub mod RoundTrip
pub mod Refusals

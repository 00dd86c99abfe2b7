-- ===== src/Tests.antt =====
-- The theorems of the library applied to concrete inputs.
mod Chunks
mod Codes
mod Arrays
mod Sorts
mod Streams
mod Words
mod Patterns
mod Texts
mod Code
mod Generator
mod Upvals

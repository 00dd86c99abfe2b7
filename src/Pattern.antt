-- ===== src/Pattern.antt =====
-- lua-5.1.5/src/lstrlib.c, "PATTERN MATCHING"
pub mod State
pub mod Items
pub mod Engine
pub mod Captures
pub mod Bounds
pub mod Match
pub mod Search
pub mod Found
pub mod Plain

-- ===== src/Code/Preserved.antt =====
-- The operations of lua-5.1.5/src/lcode.c keep the invariant of Code/Valid.
pub mod Emit
pub mod Discharge
pub mod Branches
pub mod Operators

-- ===== src/Code.antt =====
-- lua-5.1.5/src/lcode.c: the code generator, over the lists of jumps of Jumps.
pub mod State
pub mod Emit
pub mod Constants
pub mod Discharge
pub mod Branches
pub mod Operators
pub mod Valid
mod Primitives
pub mod Preserved
pub mod Reachable
pub mod Invariant
pub mod Landing
pub mod Indexed

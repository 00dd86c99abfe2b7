-- ===== src/Jumps/Links.antt =====
-- Reading and writing the links of a list of jumps (lua-5.1.5/src/lcode.c).
use lua_5_1_source_guide.Base.{
  ℕ, ◌+◌, ◌≤◌, ◌<◌, ◌≡◌, ◌≢◌, ap, ◌∙◌, arith, List, false, length, set, length-set, get_or-set_self,
  get_or-set_ne,
}
use lua_5_1_source_guide.Base.Int.{ℤ, pos, sub_ℕ, ◌+ℤ◌}
use lua_5_1_source_guide.Opcodes.{IsInstruction, get_opcode, set_arg_sbx}
use lua_5_1_source_guide.Opcodes.View.{get_arg_sbx-set}
use lua_5_1_source_guide.Code.State.{ok}
use lua_5_1_source_guide.Jumps.{is_no_jump, at, getjump, fixjump}

pub record Fixed (code code' : List ℕ) (pc dest : ℕ) : Type 0 where
  pub link : getjump code' pc ≡ pos dest
  pub opcode : get_opcode (at code' pc) ≡ get_opcode (at code pc)
  pub same_length : length code' ≡ length code
  pub elsewhere : (j : ℕ) → pc ≢ j → at code' j ≡ at code j

offset_back : (pc dest : ℕ) → dest ≢ pc → is_no_jump (sub_ℕ dest (pc + 1)) ≡ false
offset_back pc dest h = ground arith

target_back : (pc dest : ℕ) → pos (pc + 1) +ℤ sub_ℕ dest (pc + 1) ≡ pos dest
unfolding ◌+ℤ◌
target_back pc dest = ground arith

-- Where a jump of the code, not to itself, is at most 131071 instructions long, `fixjump` succeeds:
-- `getjump` then gives the destination, the opcode is kept, and so are the other instructions.
pub getjump-fixjump :
    (code : List ℕ) (pc dest : ℕ)
    → pc < length code
    → IsInstruction (at code pc)
    → dest ≢ pc
    → dest ≤ pc + 131072
    → pc + 1 ≤ dest + 131071
    → (code' : List ℕ) × (fixjump code pc dest ≡ ok code') × Fixed code code' pc dest
unfolding fixjump getjump
getjump-fixjump code pc dest inside word other far near =
    let offset : ℤ = sub_ℕ dest (pc + 1) in
    let (read, kept, _) = get_arg_sbx-set (at code pc) offset word (ground arith) (ground arith) in
    let here = get_or-set_self code pc (set_arg_sbx (at code pc) offset) 0 inside in
    (
      set code pc (set_arg_sbx (at code pc) offset),
      ground arith,
      record {
        link = rw (here, read, offset_back pc dest other) (target_back pc dest);
        opcode = ap get_opcode here ∙ kept;
        same_length = length-set code pc _;
        elsewhere = λ j ne. get_or-set_ne code pc j _ 0 ne;
      },
    )

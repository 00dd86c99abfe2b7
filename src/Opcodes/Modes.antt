-- ===== src/Opcodes/Modes.antt =====
-- The table `luaP_opmodes` (lua-5.1.5/src/lopcodes.c) against the "args" column and the notes of the
-- enumeration in lopcodes.h.
use lua_5_1_source_guide.Base.{◌≡◌, ◌≢◌, refl, true, false, Bool, not, ◌==◌}
use lua_5_1_source_guide.Opcodes.{OpMode}
use lua_5_1_source_guide.Opcodes.Table.{
  OpCode, op_value, get_op_mode, get_b_mode, get_c_mode, test_t_mode, mode_value,
}

-- "A Bx", "A sBx" or "sBx" in the column, or else separate arguments
abbrev pub documented_mode : OpCode → OpMode
documented_mode OpCode.op_loadk = OpMode.abx
documented_mode OpCode.op_getglobal = OpMode.abx
documented_mode OpCode.op_setglobal = OpMode.abx
documented_mode OpCode.op_jmp = OpMode.asbx
documented_mode OpCode.op_forloop = OpMode.asbx
documented_mode OpCode.op_forprep = OpMode.asbx
documented_mode OpCode.op_closure = OpMode.abx
documented_mode _ = OpMode.abc

-- The column has B, Bx or sBx.
abbrev pub documented_b : OpCode → Bool
documented_b OpCode.op_test = false
documented_b OpCode.op_tforloop = false
documented_b OpCode.op_close = false
documented_b _ = true

-- The column has C.
abbrev pub documented_c : OpCode → Bool
documented_c OpCode.op_loadbool = true
documented_c OpCode.op_gettable = true
documented_c OpCode.op_settable = true
documented_c OpCode.op_newtable = true
documented_c OpCode.op_self = true
documented_c OpCode.op_add = true
documented_c OpCode.op_sub = true
documented_c OpCode.op_mul = true
documented_c OpCode.op_div = true
documented_c OpCode.op_mod = true
documented_c OpCode.op_pow = true
documented_c OpCode.op_concat = true
documented_c OpCode.op_eq = true
documented_c OpCode.op_lt = true
documented_c OpCode.op_le = true
documented_c OpCode.op_test = true
documented_c OpCode.op_testset = true
documented_c OpCode.op_call = true
documented_c OpCode.op_tailcall = true
documented_c OpCode.op_tforloop = true
documented_c OpCode.op_setlist = true
documented_c _ = false

-- The description ends in "then pc++" or "else pc++" under a condition on the operands.
abbrev pub documented_test : OpCode → Bool
documented_test OpCode.op_eq = true
documented_test OpCode.op_lt = true
documented_test OpCode.op_le = true
documented_test OpCode.op_test = true
documented_test OpCode.op_testset = true
documented_test OpCode.op_tforloop = true
documented_test _ = false

-- For every opcode, the format and the test bit of the table are those that the header documents.
pub modes-format :
    (o : OpCode)
    → (get_op_mode (op_value o) ≡ mode_value (documented_mode o))
      × (test_t_mode (op_value o) ≡ documented_test o)
unfolding get_op_mode test_t_mode op_value
modes-format OpCode.op_move = (refl, refl)
modes-format _ = (refl, refl)

-- For every opcode but OP_TEST, the table says that B (or Bx) and C are used exactly where the header
-- lists them among the arguments.
pub modes-operands :
    (o : OpCode)
    → o ≢ OpCode.op_test
    → (not (get_b_mode (op_value o) == 0) ≡ documented_b o)
      × (not (get_c_mode (op_value o) == 0) ≡ documented_c o)
unfolding get_b_mode get_c_mode op_value
modes-operands OpCode.op_test h = absurd (h refl)
modes-operands OpCode.op_move h = (refl, refl)
modes-operands _ h = (refl, refl)

-- ===== src/Tests/Codes.antt =====
-- A code with a test, a jump and a skip, checked by luaG_checkcode (lua-5.1.5/src/ldebug.c).
use lua_5_1_source_guide.Base.{
  ℕ, zero, suc, ◌<◌, ◌≡◌, refl, arith, List, [], ◌∷◌, ◌++◌, some, true, false, ◌⊎◌,
}
use lua_5_1_source_guide.Base.Int.{pos, ◌+ℤ◌}
use lua_5_1_source_guide.Tests.Streams.{Blocks, from_blocks}
use lua_5_1_source_guide.Opcodes.{
  mask1, get_opcode, get_arg_a, get_arg_b, get_arg_c, get_arg_bx, get_arg_sbx, is_k, index_k,
}
use lua_5_1_source_guide.Opcodes.Table.{
  OpCode, op_value, op_mode, op_modes, get_op_mode, get_b_mode, get_c_mode, test_a_mode,
  test_t_mode,
}
use lua_5_1_source_guide.Chunk.Proto.{Head, DebugInfo, Proto, Protos, proto, none_left, next, count}
use lua_5_1_source_guide.Chunk.Undump.{LoadState}
use lua_5_1_source_guide.Chunk.Dump.{dump}
use lua_5_1_source_guide.Verifier.{
  decode, word_at, symb_loop, check_code, symbexec, precheck, checks, check_mode, check_arg_mode,
  check_skip, check_call, check_dest, check_op, check_open_op, check_pseudo, follow_jump,
  is_setlist0, last_of, next_last, next_pc, setlists_before,
}
use lua_5_1_source_guide.Verifier.Progress.{Flows-GoesOn}
use lua_5_1_source_guide.Verifier.Machine.{Flows, entry, Among, successors, PlainBools}
use lua_5_1_source_guide.Verifier.Operands.{Operand, operands, captured, capture}
use lua_5_1_source_guide.Verifier.Rounds.{symb_loop-enough}

abbrev keep : List ℕ → List ℕ → ℕ × List ℕ
keep w b = (0, w ++ b)

-- TEST 0 0, JMP 2, LOADBOOL 0 0 1, LOADBOOL 0 1 0, RETURN 0 2
abbrev instructions : List ℕ
instructions = 26 ∷ 2147500054 ∷ 16386 ∷ 8388610 ∷ 16777246 ∷ []

abbrev head : Head
head = record {
  source = some (b'=' ∷ []);
  line_defined = 0;
  last_line_defined = 0;
  nups = 0;
  numparams = 1;
  is_vararg = 0;
  max_stack_size = 2;
  code = instructions;
  k = [];
}

abbrev debug : DebugInfo
debug = record { lineinfo = []; locvars = []; upvalues = [] }

good : check_code (proto head none_left debug) ≡ true
unfolding check_code symbexec precheck get_opcode mask1 op_value symb_loop decode checks get_arg_a
    check_mode get_op_mode check_arg_mode get_b_mode get_arg_b get_c_mode check_skip ◌+ℤ◌ count
    op_mode op_modes test_a_mode test_t_mode get_arg_bx get_arg_c get_arg_sbx index_k is_k
    check_call check_dest check_op check_open_op check_pseudo follow_jump is_setlist0 last_of
    next_last next_pc setlists_before
good = refl

bools : PlainBools instructions
unfolding PlainBools get_opcode mask1 op_value get_arg_c
bools zero h = absurd cc
bools (suc zero) h = absurd cc
bools (suc (suc zero)) h = omega arith
bools (suc (suc (suc zero))) h = omega arith
bools (suc (suc (suc (suc zero)))) h = absurd cc
bools (suc (suc (suc (suc (suc j))))) h = absurd cc

Flows-GoesOn_example :
    (o : OpCode) × (decode (word_at instructions 0) ≡ some o)
    × ((o ≡ OpCode.op_return)
        ⊎ ((next : ℕ) × Among (pos next) (successors head none_left 0 (word_at instructions 0) o)
            × (next < 5)
            × Flows head none_left next))
Flows-GoesOn_example = Flows-GoesOn head none_left debug good bools 0 entry

-- CLOSURE 0 0, with the register 1 as the upvalue, RETURN 0 1
abbrev closure_head : Head
closure_head = record head { code = 36 ∷ 8388608 ∷ 8388638 ∷ [] }

-- RETURN 0 1, in a function with an upvalue
abbrev closures : Protos
closures = next (proto (record head { nups = 1; code = 8388638 ∷ [] }) none_left debug) none_left

-- Among these is the register that is captured.
captures_register :
    operands closure_head closures 0 36 OpCode.op_closure
    ≡ Operand.register 0 ∷ Operand.nested 0 ∷ Operand.word 1 ∷ Operand.register 1 ∷ []
unfolding operands captured capture get_arg_a get_arg_b get_arg_bx get_opcode mask1 op_value
captures_register = refl

symb_loop-enough_example :
    (i : ℕ) × (symb_loop head none_left 5 0 5 0 4 ≡ some i)
    × (symb_loop head none_left 5 0 9 0 4 ≡ some i)
symb_loop-enough_example = symb_loop-enough head none_left 5 0 5 9 0 4 (omega arith) (omega arith)

-- The dump of the function, as luaU_dump (lua-5.1.5/src/ldump.c) writes it
abbrev program : Proto
program = proto head none_left debug

abbrev loading : LoadState Blocks
loading = record { stream = from_blocks ((dump keep false program []).written ∷ []); n_ccalls = 3 }

-- ===== src/Tests/Words.antt =====
-- Instruction words and the numbers of lua-5.1.5/src/lobject.c at concrete inputs.
use lua_5_1_source_guide.Base.{
  ℕ, suc, ◌+◌, ◌*◌, ◌≤◌, ◌<◌, ◌^◌, ◌≡◌, arith, List, [], ◌∷◌, some, true, false, not, ◌==◌, length,
}
use lua_5_1_source_guide.Base.Int.{pos, negsuc}
use lua_5_1_source_guide.Opcodes.{
  get_opcode, get_arg_a, get_arg_b, get_arg_c, get_arg_bx, get_arg_sbx, set_opcode, set_arg_a,
  set_arg_b, set_arg_c, set_arg_bx, set_arg_sbx, create_abc, create_abx, is_k, index_k, rk_as_k,
}
use lua_5_1_source_guide.Opcodes.Table.{
  OpCode, op_value, get_op_mode, get_b_mode, get_c_mode, test_t_mode, mode_value,
}
use lua_5_1_source_guide.Opcodes.View.{
  Fields, InRange, view, create_abc-view, view-set, bx-view, get_arg_sbx-set, index_k-rk_as_k,
}
use lua_5_1_source_guide.Opcodes.Modes.{
  documented_mode, documented_test, documented_b, documented_c, modes-format, modes-operands,
}
use lua_5_1_source_guide.Object.{int2fb, fb2int, log2, ceil_log2, chunk_id}
use lua_5_1_source_guide.Object.FloatByte.{fb2int-int2fb, int2fb-fb2int}
use lua_5_1_source_guide.Object.Log.{log2_floor, ceil_log2_ceiling}
use lua_5_1_source_guide.Object.ChunkId.{length-chunk_id}

-- `ADD 3 7 256`
abbrev add_fields : Fields
add_fields = record { op = 12; a = 3; b = 7; c = 256 }

add_InRange : InRange add_fields
add_InRange = record {
  op_fits = omega arith;
  a_fits = omega arith;
  b_fits = omega arith;
  c_fits = omega arith;
}

abbrev other_word : ℕ
other_word = 0x12345678

create_abc-view_example :
    InRange (view other_word)
    × (create_abc (view other_word).op (view other_word).a (view other_word).b (view other_word).c
        ≡ other_word)
create_abc-view_example = create_abc-view other_word (omega arith)

view-set_example :
    (view (set_opcode other_word 12) ≡ record (view other_word) { op = 12 })
    × (view (set_arg_a other_word 3) ≡ record (view other_word) { a = 3 })
    × (view (set_arg_b other_word 7) ≡ record (view other_word) { b = 7 })
    × (view (set_arg_c other_word 256) ≡ record (view other_word) { c = 256 })
view-set_example = view-set other_word add_fields (omega arith) add_InRange

bx-view_example :
    (get_arg_bx other_word ≡ get_arg_b other_word * 512 + get_arg_c other_word)
    × (get_arg_bx (set_arg_bx other_word 100000) ≡ 100000)
    × (get_opcode (set_arg_bx other_word 100000) ≡ get_opcode other_word)
    × (get_arg_a (set_arg_bx other_word 100000) ≡ get_arg_a other_word)
    × (create_abx (get_opcode other_word) (get_arg_a other_word) 100000
        ≡ set_arg_bx other_word 100000)
bx-view_example = bx-view other_word 100000 (omega arith) (omega arith)

get_arg_sbx-set_example :
    (get_arg_sbx (set_arg_sbx other_word (negsuc 11)) ≡ negsuc 11)
    × (get_opcode (set_arg_sbx other_word (negsuc 11)) ≡ get_opcode other_word)
    × (get_arg_a (set_arg_sbx other_word (negsuc 11)) ≡ get_arg_a other_word)
get_arg_sbx-set_example =
    get_arg_sbx-set other_word (negsuc 11) (omega arith) (omega arith) (omega arith)

index_k-rk_as_k_example :
    (is_k (rk_as_k 5) ≡ true) × (index_k (rk_as_k 5) ≡ 5) × (rk_as_k 5 ≤ 511) × (is_k 5 ≡ false)
index_k-rk_as_k_example = index_k-rk_as_k 5 (omega arith)

modes-format_example :
    (get_op_mode (op_value OpCode.op_forloop) ≡ mode_value (documented_mode OpCode.op_forloop))
    × (test_t_mode (op_value OpCode.op_forloop) ≡ documented_test OpCode.op_forloop)
modes-format_example = modes-format OpCode.op_forloop

modes-operands_example :
    (not (get_b_mode (op_value OpCode.op_add) == 0) ≡ documented_b OpCode.op_add)
    × (not (get_c_mode (op_value OpCode.op_add) == 0) ≡ documented_c OpCode.op_add)
modes-operands_example = modes-operands OpCode.op_add (λ e. cc)

fb2int-int2fb_example :
    (b v : ℕ) × (int2fb 1000 ≡ some b)
    × (fb2int b ≡ some v)
    × (b ≤ 255)
    × (1000 ≤ v)
    × (7 * v ≤ 8 * 1000)
fb2int-int2fb_example = fb2int-int2fb 1000 (omega arith)

int2fb-fb2int_example : (v : ℕ) × (fb2int 83 ≡ some v) × (int2fb v ≡ some 83)
int2fb-fb2int_example = int2fb-fb2int 83 (omega arith)

log2_floor_example : (k : ℕ) × (log2 1000 ≡ some (pos k)) × (2 ^ k ≤ 1000) × (1000 < 2 ^ suc k)
log2_floor_example = log2_floor 1000 (omega arith) (omega arith)

ceil_log2_ceiling_example :
    (k : ℕ) × (ceil_log2 1000 ≡ some (pos (suc k))) × (2 ^ k < 1000) × (1000 ≤ 2 ^ suc k)
ceil_log2_ceiling_example = ceil_log2_ceiling 1000 (omega arith) (omega arith)

abbrev file_name : List ℕ
file_name = b'@' ∷ b'l' ∷ b'i' ∷ b'f' ∷ b'e' ∷ b'.' ∷ b'l' ∷ b'u' ∷ b'a' ∷ []

length-chunk_id_example : length (chunk_id file_name 60) + 1 ≤ 60
length-chunk_id_example = length-chunk_id file_name 60 (omega arith) (omega arith)

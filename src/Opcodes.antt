-- ===== src/Opcodes.antt =====
-- lua-5.1.5/src/lopcodes.h and lopcodes.c: the layout of an instruction and the operations on its
-- fields. An `Instruction` is a 32-bit word, kept as a
-- number below 2 ^ 32; an `int` argument is a number where the source keeps it non-negative.
mod Fields
pub mod Table
pub mod View
pub mod Modes
pub mod Words
use lua_5_1_source_guide.Base.{
  ℕ, ◌+◌, ◌-◌, ◌*◌, ◌/◌, ◌%◌, ◌^◌, ◌<◌, ◌≡◌, bit_and, bit_or, List, [], ◌∷◌, Bool, not, get_or,
  ◌==◌,
}
use lua_5_1_source_guide.Base.Int.{ℤ, pos, negsuc, sub_ℕ, ◌+ℤ◌}

-- A value of type `Instruction`
abbrev pub IsInstruction : ℕ → Type 0
IsInstruction i = i < 2 ^ 32

-- The operators of C on 32-bit unsigned numbers
abbrev pub not_u32 : ℕ → ℕ
not_u32 x = 2 ^ 32 - 1 - x

abbrev pub shl_u32 : ℕ → ℕ → ℕ
shl_u32 x k = x * 2 ^ k % 2 ^ 32

abbrev pub cast_u32 : ℤ → ℕ
cast_u32 (pos n) = n % 2 ^ 32
cast_u32 (negsuc n) = not_u32 (n % 2 ^ 32)

pub data OpMode : Type 0 where
  abc abx asbx : OpMode

abbrev pub size_c : ℕ
size_c = 9

abbrev pub size_b : ℕ
size_b = 9

abbrev pub size_bx : ℕ
size_bx = size_c + size_b

abbrev pub size_a : ℕ
size_a = 8

abbrev pub size_op : ℕ
size_op = 6

abbrev pub pos_op : ℕ
pos_op = 0

abbrev pub pos_a : ℕ
pos_a = pos_op + size_op

abbrev pub pos_c : ℕ
pos_c = pos_a + size_a

abbrev pub pos_b : ℕ
pos_b = pos_c + size_c

abbrev pub pos_bx : ℕ
pos_bx = pos_c

-- `SIZE_Bx < LUAI_BITSINT-1` holds: 18 < 31.
abbrev pub max_arg_bx : ℕ
max_arg_bx = 2 ^ size_bx - 1

abbrev pub max_arg_sbx : ℕ
max_arg_sbx = max_arg_bx / 2

abbrev pub max_arg_a : ℕ
max_arg_a = 2 ^ size_a - 1

abbrev pub max_arg_b : ℕ
max_arg_b = 2 ^ size_b - 1

abbrev pub max_arg_c : ℕ
max_arg_c = 2 ^ size_c - 1

-- `n` ones at position `p`, and its complement
unfoldable pub mask1 : ℕ → ℕ → ℕ
mask1 n p = shl_u32 (not_u32 (shl_u32 (not_u32 0) n)) p

unfoldable pub mask0 : ℕ → ℕ → ℕ
unfolding mask1
mask0 n p = not_u32 (mask1 n p)

-- The shape that the `GET` and `SET` macros share
pub get_field : ℕ → ℕ → ℕ → ℕ
get_field p n i = bit_and (i / 2 ^ p) (mask1 n 0)

pub set_field : ℕ → ℕ → ℕ → ℕ → ℕ
set_field p n i u = bit_or (bit_and i (mask0 n p)) (bit_and (shl_u32 u p) (mask1 n p))

unfoldable pub get_opcode : ℕ → ℕ
unfolding get_field
get_opcode i = get_field pos_op size_op i

unfoldable pub set_opcode : ℕ → ℕ → ℕ
unfolding set_field
set_opcode i u = set_field pos_op size_op i u

unfoldable pub get_arg_a : ℕ → ℕ
unfolding get_field
get_arg_a i = get_field pos_a size_a i

unfoldable pub set_arg_a : ℕ → ℕ → ℕ
unfolding set_field
set_arg_a i u = set_field pos_a size_a i u

unfoldable pub get_arg_b : ℕ → ℕ
unfolding get_field
get_arg_b i = get_field pos_b size_b i

unfoldable pub set_arg_b : ℕ → ℕ → ℕ
unfolding set_field
set_arg_b i u = set_field pos_b size_b i u

unfoldable pub get_arg_c : ℕ → ℕ
unfolding get_field
get_arg_c i = get_field pos_c size_c i

unfoldable pub set_arg_c : ℕ → ℕ → ℕ
unfolding set_field
set_arg_c i u = set_field pos_c size_c i u

unfoldable pub get_arg_bx : ℕ → ℕ
unfolding get_field
get_arg_bx i = get_field pos_bx size_bx i

unfoldable pub set_arg_bx : ℕ → ℕ → ℕ
unfolding set_field
set_arg_bx i u = set_field pos_bx size_bx i u

unfoldable pub get_arg_sbx : ℕ → ℤ
get_arg_sbx i = sub_ℕ (get_arg_bx i) max_arg_sbx

unfoldable pub set_arg_sbx : ℕ → ℤ → ℕ
set_arg_sbx i b = set_arg_bx i (cast_u32 (b +ℤ pos max_arg_sbx))

unfoldable pub create_abc : ℕ → ℕ → ℕ → ℕ → ℕ
create_abc o a b c =
    bit_or (bit_or (bit_or (shl_u32 o pos_op) (shl_u32 a pos_a)) (shl_u32 b pos_b))
      (shl_u32 c pos_c)

unfoldable pub create_abx : ℕ → ℕ → ℕ → ℕ
create_abx o a bc = bit_or (bit_or (shl_u32 o pos_op) (shl_u32 a pos_a)) (shl_u32 bc pos_bx)

-- The bit of a B or C argument that says "constant"
abbrev pub bit_rk : ℕ
bit_rk = 2 ^ (size_b - 1)

unfoldable pub is_k : ℕ → Bool
is_k x = not (bit_and x bit_rk == 0)

unfoldable pub index_k : ℕ → ℕ
index_k r = bit_and r (not_u32 bit_rk)

abbrev pub max_index_rk : ℕ
max_index_rk = bit_rk - 1

unfoldable pub rk_as_k : ℕ → ℕ
rk_as_k x = bit_or x bit_rk

abbrev pub no_reg : ℕ
no_reg = max_arg_a

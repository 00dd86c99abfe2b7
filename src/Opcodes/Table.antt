-- ===== src/Opcodes/Table.antt =====
-- lua-5.1.5/src/lopcodes.h and lopcodes.c: the opcodes, and the table of their properties.
use lua_5_1_source_guide.Base.{
  ℕ, ◌*◌, ◌/◌, ◌^◌, bit_and, bit_or, List, [], ◌∷◌, Bool, not, get_or, ◌==◌,
}
use lua_5_1_source_guide.Opcodes.{OpMode, abc, abx, asbx}

pub data OpCode : Type 0 where
  op_move op_loadk op_loadbool op_loadnil op_getupval op_getglobal op_gettable op_setglobal
        op_setupval op_settable op_newtable op_self op_add op_sub op_mul op_div op_mod op_pow op_unm
        op_not op_len op_concat op_jmp op_eq op_lt op_le op_test op_testset op_call op_tailcall
        op_return op_forloop op_forprep op_tforloop op_setlist op_close op_closure op_vararg :
      OpCode

-- The value of an enumerator is its place in the list.
unfoldable pub op_value : OpCode → ℕ
op_value op_move = 0
op_value op_loadk = 1
op_value op_loadbool = 2
op_value op_loadnil = 3
op_value op_getupval = 4
op_value op_getglobal = 5
op_value op_gettable = 6
op_value op_setglobal = 7
op_value op_setupval = 8
op_value op_settable = 9
op_value op_newtable = 10
op_value op_self = 11
op_value op_add = 12
op_value op_sub = 13
op_value op_mul = 14
op_value op_div = 15
op_value op_mod = 16
op_value op_pow = 17
op_value op_unm = 18
op_value op_not = 19
op_value op_len = 20
op_value op_concat = 21
op_value op_jmp = 22
op_value op_eq = 23
op_value op_lt = 24
op_value op_le = 25
op_value op_test = 26
op_value op_testset = 27
op_value op_call = 28
op_value op_tailcall = 29
op_value op_return = 30
op_value op_forloop = 31
op_value op_forprep = 32
op_value op_tforloop = 33
op_value op_setlist = 34
op_value op_close = 35
op_value op_closure = 36
op_value op_vararg = 37

abbrev pub num_opcodes : ℕ
num_opcodes = 38

pub data OpArgMask : Type 0 where
  arg_n arg_u arg_r arg_k : OpArgMask

abbrev pub arg_value : OpArgMask → ℕ
arg_value arg_n = 0
arg_value arg_u = 1
arg_value arg_r = 2
arg_value arg_k = 3

abbrev pub mode_value : OpMode → ℕ
mode_value abc = 0
mode_value abx = 1
mode_value asbx = 2

-- The macro `opmode` of lopcodes.c
unfoldable pub op_mode : ℕ → ℕ → OpArgMask → OpArgMask → OpMode → ℕ
op_mode t a b c m =
    bit_or
      (bit_or (bit_or (bit_or (t * 2 ^ 7) (a * 2 ^ 6)) (arg_value b * 2 ^ 4)) (arg_value c * 2 ^ 2))
      (mode_value m)

unfoldable pub op_modes : List ℕ
unfolding op_mode
op_modes =
    op_mode 0 1 arg_r arg_n abc
    ∷ op_mode 0 1 arg_k arg_n abx
    ∷ op_mode 0 1 arg_u arg_u abc
    ∷ op_mode 0 1 arg_r arg_n abc
    ∷ op_mode 0 1 arg_u arg_n abc
    ∷ op_mode 0 1 arg_k arg_n abx
    ∷ op_mode 0 1 arg_r arg_k abc
    ∷ op_mode 0 0 arg_k arg_n abx
    ∷ op_mode 0 0 arg_u arg_n abc
    ∷ op_mode 0 0 arg_k arg_k abc
    ∷ op_mode 0 1 arg_u arg_u abc
    ∷ op_mode 0 1 arg_r arg_k abc
    ∷ op_mode 0 1 arg_k arg_k abc
    ∷ op_mode 0 1 arg_k arg_k abc
    ∷ op_mode 0 1 arg_k arg_k abc
    ∷ op_mode 0 1 arg_k arg_k abc
    ∷ op_mode 0 1 arg_k arg_k abc
    ∷ op_mode 0 1 arg_k arg_k abc
    ∷ op_mode 0 1 arg_r arg_n abc
    ∷ op_mode 0 1 arg_r arg_n abc
    ∷ op_mode 0 1 arg_r arg_n abc
    ∷ op_mode 0 1 arg_r arg_r abc
    ∷ op_mode 0 0 arg_r arg_n asbx
    ∷ op_mode 1 0 arg_k arg_k abc
    ∷ op_mode 1 0 arg_k arg_k abc
    ∷ op_mode 1 0 arg_k arg_k abc
    ∷ op_mode 1 1 arg_r arg_u abc
    ∷ op_mode 1 1 arg_r arg_u abc
    ∷ op_mode 0 1 arg_u arg_u abc
    ∷ op_mode 0 1 arg_u arg_u abc
    ∷ op_mode 0 0 arg_u arg_n abc
    ∷ op_mode 0 1 arg_r arg_n asbx
    ∷ op_mode 0 1 arg_r arg_n asbx
    ∷ op_mode 1 0 arg_n arg_u abc
    ∷ op_mode 0 0 arg_u arg_u abc
    ∷ op_mode 0 0 arg_n arg_n abc
    ∷ op_mode 0 1 arg_u arg_n abx
    ∷ op_mode 0 1 arg_u arg_n abc
    ∷ []

unfoldable pub get_op_mode : ℕ → ℕ
unfolding op_modes
get_op_mode m = bit_and (get_or op_modes m 0) 3

unfoldable pub get_b_mode : ℕ → ℕ
unfolding op_modes
get_b_mode m = bit_and (get_or op_modes m 0 / 2 ^ 4) 3

unfoldable pub get_c_mode : ℕ → ℕ
unfolding op_modes
get_c_mode m = bit_and (get_or op_modes m 0 / 2 ^ 2) 3

unfoldable pub test_a_mode : ℕ → Bool
unfolding op_modes
test_a_mode m = not (bit_and (get_or op_modes m 0) (2 ^ 6) == 0)

unfoldable pub test_t_mode : ℕ → Bool
unfolding op_modes
test_t_mode m = not (bit_and (get_or op_modes m 0) (2 ^ 7) == 0)

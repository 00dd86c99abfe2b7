-- ===== src/Tests/Generator.antt =====
-- The code generator of lua-5.1.5/src/lcode.c on small functions.
use lua_5_1_source_guide.Base.{
  ℕ, ◌+◌, ◌*◌, ◌-◌, ◌/◌, ◌%◌, ◌^◌, ◌≡◌, refl, arith, List, [], ◌∷◌, true, false, ◌==◌,
}
use lua_5_1_source_guide.Base.Int.{ℤ, pos}
use lua_5_1_source_guide.Opcodes.{get_opcode, create_abc, get_arg_sbx, get_arg_bx, mask1}
use lua_5_1_source_guide.Opcodes.Table.{OpCode, op_value, get_op_mode, get_b_mode, get_c_mode}
use lua_5_1_source_guide.Chunk.Proto.{Constant}
use lua_5_1_source_guide.Jumps.{patchlistaux, no_jump, getjump, concat}
use lua_5_1_source_guide.Jumps.Words.{AllWords}
use lua_5_1_source_guide.Jumps.Chains.{count}
use lua_5_1_source_guide.Jumps.Joined.{Joined, concat-Joined}
use lua_5_1_source_guide.Jumps.Patched.{IsJump}
use lua_5_1_source_guide.Code.State.{
  ok, FuncState, ◌>>◌, ◌>>=◌, modify, get, return, assert, on_code,
}
use lua_5_1_source_guide.Code.Constants.{Numbers, key_of, addk, lookup, new_constant}
use lua_5_1_source_guide.Code.Emit.{
  patchtohere, luak_code, reserveregs, checkstack, code_abc, dischargejpc, patch_list_aux, put_code,
  set_jpc,
}
use lua_5_1_source_guide.Code.Valid.{IsValid}
use lua_5_1_source_guide.Code.Reachable.{
  opened, forget, reserve, code_of_abc, run, calls, here, next,
}
use lua_5_1_source_guide.Code.Invariant.{Reach-IsValid}
use lua_5_1_source_guide.Code.Landing.{Pending, Landed, luak_code-patchtohere}
use lua_5_1_source_guide.Code.Indexed.{HasIndex, addk-HasIndex, addk-addk}

-- Numbers that stand for themselves, none of them NaN
abbrev naturals : Numbers
naturals = record {
  num_eq = λ a b. a == b;
  is_nan = λ a. false;
  num_add = λ a b. a + b;
  num_sub = λ a b. a - b;
  num_mul = λ a b. a * b;
  num_div = λ a b. a / b;
  num_mod = λ a b. a % b;
  num_pow = λ a b. a ^ b;
  num_unm = λ a. a;
}

numbers_equal : (r : ℕ) → Numbers.is_nan naturals r ≡ false → Numbers.num_eq naturals r r ≡ true
numbers_equal r h = ground arith

opened-IsValid : IsValid 0 (opened 1)
opened-IsValid = record {
  words = tt;
  lines = refl;
  size = omega arith;
  registers = omega arith;
  stack = omega arith;
  bottom = omega arith;
  constants = omega arith;
  table = tt;
}

-- One register more
abbrev reserved_one : FuncState
reserved_one = record {
  code = [];
  lineinfo = [];
  k = [];
  h = [];
  max_stack_size = 2;
  lasttarget = no_jump;
  jpc = no_jump;
  freereg = 1;
  nactvar = 0;
  lastline = 1;
}

reserves : run naturals (reserve 1) (opened 1) ≡ ok (tt, reserved_one)
unfolding run reserveregs ◌>>◌ ◌>>=◌ checkstack modify
reserves = refl

-- Then a return of no value
abbrev returned : FuncState
returned = record {
  code = 0x0080001e ∷ [];
  lineinfo = 1 ∷ [];
  k = [];
  h = [];
  max_stack_size = 2;
  lasttarget = no_jump;
  jpc = no_jump;
  freereg = 1;
  nactvar = 0;
  lastline = 1;
}

returns : run naturals (code_of_abc OpCode.op_return 0 1 0) reserved_one ≡ ok (tt, returned)
unfolding run forget ◌>>◌ ◌>>=◌ code_abc assert return get_op_mode op_value get_b_mode get_c_mode
    get luak_code dischargejpc patch_list_aux on_code patchlistaux set_jpc modify put_code
    create_abc
returns = refl

Reach-IsValid_example : IsValid 0 returned
Reach-IsValid_example = Reach-IsValid naturals 0 (opened 1) returned opened-IsValid (
    next (next here (calls (reserve 1) reserves))
      (calls (code_of_abc OpCode.op_return 0 1 0) returns))

-- Two jumps without a destination, and a return
abbrev jumps : List ℕ
jumps = 0x7fff8016 ∷ 0x7fff8016 ∷ 0x0080001e ∷ []

first_end : getjump jumps 0 ≡ no_jump
unfolding getjump get_arg_sbx get_arg_bx mask1
first_end = refl

second_end : getjump jumps 1 ≡ no_jump
unfolding getjump get_arg_sbx get_arg_bx mask1
second_end = refl

jumps_words : AllWords jumps
jumps_words = omega arith

no_zero : count 1 (0 ∷ []) ≡ 0
unfolding count
no_zero = refl

concat-Joined_example :
    (r : ℤ × List ℕ) × (concat 4 jumps (pos 1) (pos 0) ≡ ok r) × Joined (1 ∷ []) (0 ∷ []) jumps r
concat-Joined_example =
    concat-Joined jumps (pos 1) (pos 0) (1 ∷ []) (0 ∷ []) (omega arith) jumps_words
      (refl, omega arith, second_end) (refl, omega arith, first_end) (no_zero, tt)

-- The first jump is pending, at the end of the code.
abbrev pending : FuncState
pending = record {
  code = jumps;
  lineinfo = 1 ∷ 1 ∷ 2 ∷ [];
  k = [];
  h = [];
  max_stack_size = 2;
  lasttarget = no_jump;
  jpc = pos 0;
  freereg = 0;
  nactvar = 0;
  lastline = 3;
}

first_jump : IsJump jumps 0
unfolding op_value get_opcode mask1
first_jump = refl

second_jump : IsJump jumps 1
unfolding op_value get_opcode mask1
second_jump = refl

pending-Pending : Pending pending (0 ∷ [])
pending-Pending = record {
  short = omega arith;
  words = jumps_words;
  list = (refl, omega arith, first_end);
  jumps = (first_jump, tt);
}

no_one : count 0 (1 ∷ []) ≡ 0
unfolding count
no_one = refl

luak_code-patchtohere_example :
    (fs' : FuncState) × ((patchtohere (pos 1) >> luak_code 0x0080001e 4) pending ≡ ok (3, fs'))
    × Landed pending (0 ∷ 1 ∷ []) 0x0080001e fs'
luak_code-patchtohere_example =
    luak_code-patchtohere pending (pos 1) (0 ∷ []) (1 ∷ []) 0x0080001e 4 pending-Pending
      (refl, omega arith, second_end) (second_jump, tt) (no_one, tt)

addk-HasIndex_example :
    HasIndex naturals
      (Constant.number 7)
      (opened 1)
      (addk naturals (key_of (Constant.number 7)) (Constant.number 7) (opened 1))
addk-HasIndex_example = addk-HasIndex naturals (opened 1) (Constant.number 7) numbers_equal tt

-- The state after the constant 7
abbrev seven : FuncState
seven = record {
  code = [];
  lineinfo = [];
  k = Constant.number 7 ∷ [];
  h = (key_of (Constant.number 7), 0) ∷ [];
  max_stack_size = 2;
  lasttarget = no_jump;
  jpc = no_jump;
  freereg = 0;
  nactvar = 0;
  lastline = 1;
}

adds_seven :
    addk naturals (key_of (Constant.number 7)) (Constant.number 7) (opened 1) ≡ ok (0, seven)
unfolding addk lookup new_constant
adds_seven = refl

addk-addk_example :
    addk naturals (key_of (Constant.number 7)) (Constant.number 7) seven ≡ ok (0, seven)
addk-addk_example =
    addk-addk naturals (opened 1) seven (Constant.number 7) 0 numbers_equal tt adds_seven

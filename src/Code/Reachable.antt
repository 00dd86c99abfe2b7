-- ===== src/Code/Reachable.antt =====
-- The calls that lparser.c makes of the operations of lua-5.1.5/src/lcode.c, and what it writes to the
-- state itself between them, as steps; and the states that they reach.
use lua_5_1_source_guide.Base.{ℕ, ◌≤◌, ◌<◌, ◌≡◌, []}
use lua_5_1_source_guide.Base.Int.{ℤ}
use lua_5_1_source_guide.Opcodes.{set_arg_b, set_arg_c}
use lua_5_1_source_guide.Opcodes.Table.{OpCode}
use lua_5_1_source_guide.Chunk.Proto.{Str}
use lua_5_1_source_guide.Jumps.{no_jump}
use lua_5_1_source_guide.Code.State.{ok, FuncState, ExpDesc, Gen, ◌>>◌, return}
use lua_5_1_source_guide.Code.Emit.{
  edit, getlabel, code_abc, code_abx, luak_nil, luak_jump, luak_ret, patchlist, patchtohere,
  luak_concat, checkstack, reserveregs, fixline, luak_setlist,
}
use lua_5_1_source_guide.Code.Constants.{Numbers, string_k, number_k}
use lua_5_1_source_guide.Code.Discharge.{
  setreturns, setoneret, dischargevars, exp2nextreg, exp2anyreg, exp2val, exp2rk,
}
use lua_5_1_source_guide.Code.Branches.{storevar, luak_self, goiftrue, indexed}
use lua_5_1_source_guide.Code.Operators.{BinOpr, UnOpr, code_prefix, code_infix, code_posfix}

-- A call of an operation that the parser uses, with its arguments
pub data Call : Type 0 where
  nil : ℕ → ℕ → Call
  jump : Call
  ret : ℕ → ℤ → Call
  patch : ℤ → ℕ → Call
  patch_to_here : ℤ → Call
  join : ℤ → ℤ → Call
  label : Call
  check_stack : ℕ → Call
  reserve : ℕ → Call
  string : Str → Call
  number : ℕ → Call
  code_of_abc : OpCode → ℕ → ℕ → ℕ → Call
  code_of_abx : OpCode → ℕ → ℕ → Call
  set_returns : ExpDesc → ℤ → Call
  set_one_ret : ExpDesc → Call
  discharge : ExpDesc → Call
  to_next_register : ExpDesc → Call
  to_any_register : ExpDesc → Call
  to_value : ExpDesc → Call
  to_operand : ExpDesc → Call
  store : ExpDesc → ExpDesc → Call
  self : ExpDesc → ExpDesc → Call
  go_if_true : ExpDesc → Call
  index : ExpDesc → ExpDesc → Call
  prefix_of : UnOpr → ExpDesc → Call
  infix_of : BinOpr → ExpDesc → Call
  posfix_of : BinOpr → ExpDesc → ExpDesc → Call
  fix_line : ℕ → Call
  set_argument_b set_argument_c : ℕ → ℕ → Call

unfoldable pub forget : {A : Type 0} → Gen A → Gen (Unit {0})
forget m = m >> return tt

module _ (num : Numbers) where
  unfoldable pub run : Call → Gen (Unit {0})
  run (nil from n) = luak_nil from n
  run jump = forget luak_jump
  run (ret first n) = luak_ret first n
  run (patch list target) = patchlist list target
  run (patch_to_here list) = patchtohere list
  run (join l1 l2) = forget (luak_concat l1 l2)
  run label = forget getlabel
  run (check_stack n) = checkstack n
  run (reserve n) = reserveregs n
  run (string s) = forget (string_k num s)
  run (number r) = forget (number_k num r)
  run (code_of_abc o a b c) = forget (code_abc o a b c)
  run (code_of_abx o a bc) = forget (code_abx o a bc)
  run (set_returns e n) = setreturns e n
  run (set_one_ret e) = forget (setoneret e)
  run (discharge e) = forget (dischargevars e)
  run (to_next_register e) = forget (exp2nextreg num e)
  run (to_any_register e) = forget (exp2anyreg num e)
  run (to_value e) = forget (exp2val num e)
  run (to_operand e) = forget (exp2rk num e)
  run (store var ex) = storevar num var ex
  run (self e key) = forget (luak_self num e key)
  run (go_if_true e) = forget (goiftrue num e)
  run (index t key) = forget (indexed num t key)
  run (prefix_of op e) = forget (code_prefix num op e)
  run (infix_of op e) = forget (code_infix num op e)
  run (posfix_of op e1 e2) = forget (code_posfix num op e1 e2)
  run (fix_line line) = fixline line
  run (set_argument_b pc n) = edit pc (λ i. set_arg_b i n)
  run (set_argument_c pc n) = edit pc (λ i. set_arg_c i n)

-- The parser moves on to another line, changes the number of active variables, and frees registers.
-- `luaK_setlist` is called for a table in a register that is taken.
pub data Step (num : Numbers) : FuncState → FuncState → Type 0 where
  calls : {fs fs' : FuncState} (c : Call) → run num c fs ≡ ok (tt, fs') → Step num fs fs'
  set_list :
      {fs fs' : FuncState} (base n : ℕ) (stored : ℤ)
      → base < fs.freereg
      → luak_setlist base n stored fs ≡ ok (tt, fs')
      → Step num fs fs'
  at_line : {fs : FuncState} (line : ℕ) → Step num fs (record fs { lastline = line })
  variables : {fs : FuncState} (n : ℕ) → Step num fs (record fs { nactvar = n })
  frees : {fs : FuncState} (reg : ℕ) → reg ≤ fs.freereg → Step num fs (record fs { freereg = reg })

pub data Reach (num : Numbers) (start : FuncState) : FuncState → Type 0 where
  here : Reach num start start
  next : {fs fs' : FuncState} → Reach num start fs → Step num fs fs' → Reach num start fs'

-- The state that `open_func` leaves
abbrev pub opened : ℕ → FuncState
opened line = record {
  code = [];
  lineinfo = [];
  k = [];
  h = [];
  max_stack_size = 2;
  lasttarget = no_jump;
  jpc = no_jump;
  freereg = 0;
  nactvar = 0;
  lastline = line;
}

-- ===== src/Code/Emit.antt =====
-- lua-5.1.5/src/lcode.c: instructions, jumps and registers. The argument of an instruction is a number
-- where the source keeps it non-negative.
use lua_5_1_source_guide.Base.{
  ℕ, suc, ◌+◌, ◌-◌, ◌/◌, ◌%◌, ◌^◌, List, [], ◌∷◌, ◌++◌, Bool, true, false, not, ◌&&◌, ◌||◌, ltb,
  leb, ◌==◌, if◌then◌else◌, length, set,
}
use lua_5_1_source_guide.Base.Int.{ℤ, pos, negsuc, ltb_ℤ, ◌+ℤ◌}
use lua_5_1_source_guide.Opcodes.{
  abc, cast_u32, get_opcode, get_arg_a, get_arg_b, set_arg_b, create_abc, create_abx, max_arg_sbx,
  max_arg_c, no_reg, is_k,
}
use lua_5_1_source_guide.Opcodes.Table.{
  OpCode, op_value, get_op_mode, get_b_mode, get_c_mode, mode_value,
}
use lua_5_1_source_guide.Jumps.{no_jump, at, need_value, removevalues, patchlistaux, concat}
use lua_5_1_source_guide.Code.State.{
  Outcome, ok, err, stuck, FuncState, ExpKind, vnonreloc, ExpDesc, Gen, ◌>>=◌, ◌>>◌, return, get,
  assert, when◌then◌else◌, modify, on_code, code_size_overflow, expression_too_complex,
}

abbrev pub pc_of : FuncState → ℕ
pc_of fs = length fs.code

-- `MAX_INT` and `MAXSTACK` of llimits.h
abbrev pub max_int : ℕ
max_int = 2 ^ 31 - 3

abbrev pub max_stack : ℕ
max_stack = 250

-- A result beside the code, and the code alone
abbrev pub only_code : Outcome (List ℕ) → Outcome (Unit {0} × List ℕ)
only_code (ok code) = ok (tt, code)
only_code (err e) = err e
only_code stuck = stuck

abbrev pub keep_code : List ℕ → Outcome Bool → Outcome (Bool × List ℕ)
keep_code code (ok b) = ok (b, code)
keep_code code (err e) = err e
keep_code code stuck = stuck

-- The walks of Jumps, on the code at hand. A list of jumps has at most one element for each instruction.
unfoldable pub patch_list_aux : ℤ → ℤ → ℕ → ℤ → Gen (Unit {0})
patch_list_aux list vtarget reg dtarget =
    on_code (λ code. only_code (patchlistaux (suc (length code)) code list vtarget reg dtarget))

unfoldable pub remove_values : ℤ → Gen (Unit {0})
remove_values list = on_code (λ code. only_code (removevalues (suc (length code)) code list))

unfoldable pub needs_value : ℤ → Gen Bool
needs_value list = on_code (λ code. keep_code code (need_value (suc (length code)) code list))

unfoldable pub luak_concat : ℤ → ℤ → Gen ℤ
luak_concat l1 l2 = on_code (λ code. concat (suc (length code)) code l1 l2)

-- A change of the instruction at a place
unfoldable pub edit : ℕ → (ℕ → ℕ) → Gen (Unit {0})
edit pc g = modify (λ fs. record fs { code = set fs.code pc (g (at fs.code pc)) })

unfoldable pub getlabel : Gen ℕ
getlabel = modify (λ fs. record fs { lasttarget = pos (pc_of fs) }) >> get pc_of

unfoldable pub set_jpc : ℤ → Gen (Unit {0})
set_jpc list = modify (λ fs. record fs { jpc = list })

unfoldable pub dischargejpc : Gen (Unit {0})
dischargejpc = do
  list ← get (λ fs. fs.jpc)
  here ← get pc_of
  patch_list_aux list (pos here) no_reg (pos here)
  set_jpc no_jump

-- The arrays grow to `MAX_INT` elements at most.
unfoldable pub put_code : ℕ → ℕ → Gen ℕ
put_code i line fs =
    if leb max_int (pc_of fs)
    then err code_size_overflow
    else ok (pc_of fs, record fs { code = fs.code ++ i ∷ []; lineinfo = fs.lineinfo ++ line ∷ [] })

unfoldable pub luak_code : ℕ → ℕ → Gen ℕ
luak_code i line = dischargejpc >> put_code i line

unfoldable pub code_abc : OpCode → ℕ → ℕ → ℕ → Gen ℕ
code_abc o a b c = do
  assert (get_op_mode (op_value o) == mode_value abc)
  assert (not (get_b_mode (op_value o) == 0) || b == 0)
  assert (not (get_c_mode (op_value o) == 0) || c == 0)
  line ← get (λ fs. fs.lastline)
  luak_code (create_abc (op_value o) a b c) line

unfoldable pub code_abx : OpCode → ℕ → ℕ → Gen ℕ
code_abx o a bc = do
  assert (not (get_op_mode (op_value o) == mode_value abc))
  assert (get_c_mode (op_value o) == 0)
  line ← get (λ fs. fs.lastline)
  luak_code (create_abx (op_value o) a bc) line

unfoldable pub code_asbx : OpCode → ℕ → ℤ → Gen ℕ
code_asbx o a sbx = code_abx o a (cast_u32 (sbx +ℤ pos max_arg_sbx))

-- `luaK_nil` clears `n` registers, one at least.
unfoldable pub extends_nil : ℕ → FuncState → Bool
extends_nil from fs =
    let previous = at fs.code (pc_of fs - 1) in
    get_opcode previous == op_value OpCode.op_loadnil
    && leb (get_arg_a previous) from
    && leb from (get_arg_b previous + 1)

unfoldable pub luak_nil : ℕ → ℕ → Gen (Unit {0})
luak_nil from n = do
  free ← get (λ fs. ltb_ℤ fs.lasttarget (pos (pc_of fs)))
  here ← get pc_of
  active ← get (λ fs. fs.nactvar)
  extends ← get (extends_nil from)
  pto ← get (λ fs. get_arg_b (at fs.code (pc_of fs - 1)))
  when free && here == 0 && leb active from
      then return tt
      else (when free && not (here == 0) && extends
          then (when ltb pto (from + n - 1)
              then edit (here - 1) (λ i. set_arg_b i (from + n - 1))
              else return tt)
          else (code_abc OpCode.op_loadnil from (from + n - 1) 0 >> return tt))

unfoldable pub luak_jump : Gen ℤ
luak_jump = do
  jpc ← get (λ fs. fs.jpc)
  set_jpc no_jump
  j ← code_asbx OpCode.op_jmp 0 no_jump
  luak_concat (pos j) jpc

-- The number of values may be `LUA_MULTRET`, -1.
unfoldable pub luak_ret : ℕ → ℤ → Gen (Unit {0})
luak_ret first nret = code_abc OpCode.op_return first (cast_u32 (nret +ℤ pos 1)) 0 >> return tt

unfoldable pub condjump : OpCode → ℕ → ℕ → ℕ → Gen ℤ
condjump o a b c = code_abc o a b c >> luak_jump

unfoldable pub patchtohere : ℤ → Gen (Unit {0})
patchtohere list = do
  getlabel
  jpc ← get (λ fs. fs.jpc)
  joined ← luak_concat jpc list
  set_jpc joined

unfoldable pub patchlist : ℤ → ℕ → Gen (Unit {0})
patchlist list target = do
  here ← get pc_of
  when target == here
      then patchtohere list
      else (assert (ltb target here) >> patch_list_aux list (pos target) no_reg (pos target))

unfoldable pub checkstack : ℕ → Gen (Unit {0})
checkstack n fs =
    let newstack = fs.freereg + n in
    if ltb fs.max_stack_size newstack
    then (if leb max_stack newstack
        then err expression_too_complex
        else ok (tt, record fs { max_stack_size = newstack }))
    else ok (tt, fs)

unfoldable pub reserveregs : ℕ → Gen (Unit {0})
reserveregs n = checkstack n >> modify (λ fs. record fs { freereg = fs.freereg + n })

-- `freereg`, on a register or a constant
unfoldable pub free_register : ℕ → Gen (Unit {0})
free_register reg = do
  active ← get (λ fs. fs.nactvar)
  free ← get (λ fs. fs.freereg)
  when not (is_k reg) && leb active reg
      then (assert (reg + 1 == free) >> modify (λ fs. record fs { freereg = fs.freereg - 1 }))
      else return tt

abbrev pub is_nonreloc : ExpKind → Bool
is_nonreloc vnonreloc = true
is_nonreloc _ = false

unfoldable pub freeexp : ExpDesc → Gen (Unit {0})
freeexp e = when is_nonreloc e.k then free_register e.info else return tt

-- Behind the last instruction there must be one.
unfoldable pub fixline : ℕ → Gen (Unit {0})
fixline line = modify (λ fs. record fs { lineinfo = set fs.lineinfo (pc_of fs - 1) line })

-- `LUA_MULTRET` is -1.
abbrev stored_count : ℤ → ℕ
stored_count (pos n) = n
stored_count (negsuc n) = 0

abbrev is_zero : ℤ → Bool
is_zero (pos n) = n == 0
is_zero (negsuc n) = false

-- `LFIELDS_PER_FLUSH` is 50; there is one element at least. The batch takes an instruction of its own
-- where it is too large.
unfoldable pub set_list_code : ℕ → ℕ → ℕ → ℤ → Gen (Unit {0})
set_list_code base nelems line tostore =
    let c = (nelems - 1) / 50 + 1 in
    when leb c max_arg_c
    then (code_abc OpCode.op_setlist base (stored_count tostore) c >> return tt)
    else (code_abc OpCode.op_setlist base (stored_count tostore) 0
        >> luak_code (c % 2 ^ 32) line
        >> return tt)

unfoldable pub luak_setlist : ℕ → ℕ → ℤ → Gen (Unit {0})
luak_setlist base nelems tostore = do
  assert (not (is_zero tostore))
  line ← get (λ fs. fs.lastline)
  set_list_code base nelems line tostore
  modify (λ fs. record fs { freereg = base + 1 })

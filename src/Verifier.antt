-- ===== src/Verifier.antt =====
-- lua-5.1.5/src/ldebug.c, "Symbolic Execution and code checker".
pub mod Walk
pub mod Parity
pub mod Machine
pub mod Landing
pub mod Flow
pub mod Operands
pub mod Arguments
pub mod Registers
pub mod Progress
pub mod Loading
pub mod Rounds
use lua_5_1_source_guide.Base.{
  ℕ, zero, suc, ◌+◌, ◌-◌, bit_and, List, [], ◌∷◌, Option, none, some, Bool, true, false, not, ◌&&◌,
  ◌||◌, ltb, leb, ◌==◌, if◌then◌else◌, length, get_elem?, get_or,
}
use lua_5_1_source_guide.Base.Int.{ℤ, pos, negsuc, ◌+ℤ◌}
use lua_5_1_source_guide.Opcodes.{
  abc, abx, asbx, get_opcode, get_arg_a, get_arg_b, get_arg_c, get_arg_bx, get_arg_sbx, is_k,
  index_k, no_reg,
}
use lua_5_1_source_guide.Opcodes.Table.{
  OpCode, op_value, arg_n, arg_r, arg_k, arg_value, mode_value, get_op_mode, get_b_mode, get_c_mode,
  test_a_mode, test_t_mode,
}
use lua_5_1_source_guide.Chunk.Proto.{
  Constant, Head, DebugInfo, Proto, Protos, proto, none_left, next, count,
}
use lua_5_1_source_guide.Code.Emit.{max_stack}

-- The enumerators, each at the place of its value
abbrev pub op_codes : List OpCode
op_codes =
    OpCode.op_move ∷ OpCode.op_loadk ∷ OpCode.op_loadbool ∷ OpCode.op_loadnil ∷ OpCode.op_getupval
    ∷ OpCode.op_getglobal ∷ OpCode.op_gettable ∷ OpCode.op_setglobal ∷ OpCode.op_setupval
    ∷ OpCode.op_settable ∷ OpCode.op_newtable ∷ OpCode.op_self ∷ OpCode.op_add ∷ OpCode.op_sub
    ∷ OpCode.op_mul ∷ OpCode.op_div ∷ OpCode.op_mod ∷ OpCode.op_pow ∷ OpCode.op_unm ∷ OpCode.op_not
    ∷ OpCode.op_len ∷ OpCode.op_concat ∷ OpCode.op_jmp ∷ OpCode.op_eq ∷ OpCode.op_lt ∷ OpCode.op_le
    ∷ OpCode.op_test ∷ OpCode.op_testset ∷ OpCode.op_call ∷ OpCode.op_tailcall ∷ OpCode.op_return
    ∷ OpCode.op_forloop ∷ OpCode.op_forprep ∷ OpCode.op_tforloop ∷ OpCode.op_setlist
    ∷ OpCode.op_close ∷ OpCode.op_closure ∷ OpCode.op_vararg ∷ []

-- The opcode of a word, if it is below `NUM_OPCODES`
unfoldable pub decode : ℕ → Option OpCode
decode i = get_elem? op_codes (get_opcode i)

abbrev pub word_at : List ℕ → ℕ → ℕ
word_at code pc = get_or code pc 0

abbrev pub has_op : ℕ → OpCode → Bool
has_op i o = get_opcode i == op_value o

-- `VARARG_HASARG`, `VARARG_ISVARARG` and `VARARG_NEEDSARG` of lobject.h
abbrev pub vararg_has : ℕ
vararg_has = 1

abbrev pub vararg_is : ℕ
vararg_is = 2

abbrev pub vararg_needs : ℕ
vararg_needs = 4

abbrev pub flag : ℕ → ℕ → Bool
flag x m = not (bit_and x m == 0)

unfoldable pub precheck : Proto → Bool
precheck (proto f ps d) =
    leb f.max_stack_size max_stack
    && (leb (f.numparams + bit_and f.is_vararg vararg_has) f.max_stack_size
        && ((not (flag f.is_vararg vararg_needs) || flag f.is_vararg vararg_has)
            && (leb (length d.upvalues) f.nups
                && ((length d.lineinfo == length f.code || length d.lineinfo == 0)
                    && (ltb 0 (length f.code)
                        && has_op (word_at f.code (length f.code - 1)) OpCode.op_return)))))

unfoldable pub check_open_op : ℕ → Bool
check_open_op i =
    (has_op i OpCode.op_call
      || has_op i OpCode.op_tailcall
      || has_op i OpCode.op_return
      || has_op i OpCode.op_setlist)
    && get_arg_b i == 0

-- The function checked: its head, and the numbers of upvalues of its nested functions
abbrev pub nups_of : Proto → ℕ
nups_of (proto f ps d) = f.nups

abbrev pub nups_at : Protos → ℕ → ℕ
nups_at none_left i = 0
nups_at (next f fs) zero = nups_of f
nups_at (next f fs) (suc i) = nups_at fs i

abbrev pub is_string : Constant → Bool
is_string (Constant.string s) = true
is_string _ = false

-- The mode of the operand is one of the four.
unfoldable pub check_arg_mode : Head → ℕ → ℕ → Bool
check_arg_mode f r mode =
    if mode == arg_value arg_n
    then r == 0
    else if mode == arg_value arg_r
    then ltb r f.max_stack_size
    else if mode == arg_value arg_k
    then (if is_k r then ltb (index_k r) (length f.k) else ltb r f.max_stack_size)
    else true

-- An `OP_SETLIST` whose count is the next word
unfoldable pub is_setlist0 : ℕ → Bool
is_setlist0 d = has_op d OpCode.op_setlist && get_arg_c d == 0

-- The loop over `j`: how many words before `dest` look like that
unfoldable pub setlists_before : List ℕ → ℕ → ℕ
setlists_before code zero = 0
setlists_before code (suc d) =
    let rest = setlists_before code d in if is_setlist0 (word_at code d) then suc rest else 0

unfoldable pub check_dest : List ℕ → ℤ → Bool
check_dest code (negsuc n) = false
check_dest code (pos dest) =
    ltb dest (length code)
    && (if ltb 0 dest then bit_and (setlists_before code dest) 1 == 0 else true)

-- `pc+1+b`, for a signed `b`
abbrev pub jump_dest : ℕ → ℕ → ℤ
jump_dest pc i = pos (pc + 1) +ℤ get_arg_sbx i

-- The `switch` on the mode of the instruction
unfoldable pub check_mode : Head → ℕ → ℕ → OpCode → Bool
check_mode f pc i o =
    let m = get_op_mode (op_value o) in
    if m == mode_value abc
    then check_arg_mode f (get_arg_b i) (get_b_mode (op_value o))
      && check_arg_mode f (get_arg_c i) (get_c_mode (op_value o))
    else if m == mode_value abx
    then (if get_b_mode (op_value o) == arg_value arg_k
        then ltb (get_arg_bx i) (length f.k)
        else true)
    else if m == mode_value asbx
    then (if get_b_mode (op_value o) == arg_value arg_r
        then check_dest f.code (jump_dest pc i)
        else true)
    else true

unfoldable pub check_skip : Head → ℕ → OpCode → Bool
check_skip f pc o =
    if test_t_mode (op_value o)
    then ltb (pc + 2) (length f.code) && has_op (word_at f.code (pc + 1)) OpCode.op_jmp
    else true

-- The words behind an `OP_CLOSURE`, of which there are `nup`
unfoldable pub check_pseudo : List ℕ → ℕ → ℕ → Bool
check_pseudo code pc zero = true
check_pseudo code pc (suc nup) =
    let rest = check_pseudo code pc nup in
    let i = word_at code (pc + suc nup) in
    (has_op i OpCode.op_getupval || has_op i OpCode.op_move) && rest

abbrev pub check_reg : Head → ℕ → Bool
check_reg f r = ltb r f.max_stack_size

unfoldable pub check_call : Head → ℕ → ℕ → Bool
check_call f pc i =
    let a = get_arg_a i in
    let b = get_arg_b i in
    let c = get_arg_c i in
    (if b == 0 then true else check_reg f (a + b - 1))
    && (if c == 0
        then check_open_op (word_at f.code (pc + 1))
        else if c == 1
        then true
        else check_reg f (a + (c - 1) - 1))

-- The checks of the `switch` on the opcode. Register `a` is in range already, so that a register
-- below it need not be told from a negative one.
unfoldable pub check_op : Head → Protos → ℕ → ℕ → OpCode → Bool
check_op f ps pc i OpCode.op_loadbool =
    if get_arg_c i == 1
    then ltb (pc + 2) (length f.code)
      && (not (has_op (word_at f.code (pc + 1)) OpCode.op_setlist)
          || not (get_arg_c (word_at f.code (pc + 1)) == 0))
    else true
check_op f ps pc i OpCode.op_getupval = ltb (get_arg_b i) f.nups
check_op f ps pc i OpCode.op_setupval = ltb (get_arg_b i) f.nups
check_op f ps pc i OpCode.op_getglobal = is_string (get_or f.k (get_arg_bx i) Constant.nil)
check_op f ps pc i OpCode.op_setglobal = is_string (get_or f.k (get_arg_bx i) Constant.nil)
check_op f ps pc i OpCode.op_self = check_reg f (get_arg_a i + 1)
check_op f ps pc i OpCode.op_concat = ltb (get_arg_b i) (get_arg_c i)
check_op f ps pc i OpCode.op_tforloop =
    leb 1 (get_arg_c i) && check_reg f (get_arg_a i + 2 + get_arg_c i)
check_op f ps pc i OpCode.op_forloop = check_reg f (get_arg_a i + 3)
check_op f ps pc i OpCode.op_forprep = check_reg f (get_arg_a i + 3)
check_op f ps pc i OpCode.op_call = check_call f pc i
check_op f ps pc i OpCode.op_tailcall = check_call f pc i
check_op f ps pc i OpCode.op_return =
    if ltb 1 (get_arg_b i) then check_reg f (get_arg_a i + (get_arg_b i - 1) - 1) else true
check_op f ps pc i OpCode.op_setlist =
    (if ltb 0 (get_arg_b i) then check_reg f (get_arg_a i + get_arg_b i) else true)
    && (if get_arg_c i == 0 then ltb (pc + 1) (length f.code - 1) else true)
check_op f ps pc i OpCode.op_closure =
    ltb (get_arg_bx i) (count ps)
    && (ltb (pc + nups_at ps (get_arg_bx i)) (length f.code)
        && check_pseudo f.code pc (nups_at ps (get_arg_bx i)))
check_op f ps pc i OpCode.op_vararg =
    flag f.is_vararg vararg_is
    && not (flag f.is_vararg vararg_needs)
    && ((if get_arg_b i == 0 then check_open_op (word_at f.code (pc + 1)) else true)
        && check_reg f (get_arg_a i + get_arg_b i - 2))
check_op f ps pc i _ = true

-- All checks on the instruction at `pc`
unfoldable pub checks : Head → Protos → ℕ → ℕ → OpCode → Bool
checks f ps pc i o =
    check_reg f (get_arg_a i)
    && (check_mode f pc i o && (check_skip f pc o && check_op f ps pc i o))

-- `last`, after the instruction
unfoldable pub last_of : OpCode → ℕ → ℕ → ℕ → ℕ → ℕ
last_of OpCode.op_loadnil i reg pc last =
    if leb (get_arg_a i) reg && leb reg (get_arg_b i) then pc else last
last_of OpCode.op_self i reg pc last = if reg == get_arg_a i + 1 then pc else last
last_of OpCode.op_tforloop i reg pc last = if leb (get_arg_a i + 2) reg then pc else last
last_of OpCode.op_call i reg pc last = if leb (get_arg_a i) reg then pc else last
last_of OpCode.op_tailcall i reg pc last = if leb (get_arg_a i) reg then pc else last
last_of _ i reg pc last = last

unfoldable pub next_last : OpCode → ℕ → ℕ → ℕ → ℕ → ℕ
next_last o i reg pc last =
    last_of o i reg pc (if test_a_mode (op_value o) && get_arg_a i == reg then pc else last)

-- Where a forward jump leads that does not skip `lastpc`, while a register is traced
unfoldable pub follow_jump : ℕ → ℕ → ℕ → ℤ → ℕ
follow_jump lastpc reg pc (negsuc n) = pc + 1
follow_jump lastpc reg pc (pos dest) =
    if not (reg == no_reg) && (ltb pc dest && leb dest lastpc) then dest else pc + 1

-- `pc`, after the instruction and the `pc++` of the loop
unfoldable pub next_pc : Protos → OpCode → ℕ → ℕ → ℕ → ℕ → ℕ
next_pc ps OpCode.op_jmp i lastpc reg pc = follow_jump lastpc reg pc (jump_dest pc i)
next_pc ps OpCode.op_forloop i lastpc reg pc = follow_jump lastpc reg pc (jump_dest pc i)
next_pc ps OpCode.op_forprep i lastpc reg pc = follow_jump lastpc reg pc (jump_dest pc i)
next_pc ps OpCode.op_setlist i lastpc reg pc = if get_arg_c i == 0 then pc + 2 else pc + 1
next_pc ps OpCode.op_closure i lastpc reg pc =
    if not (reg == no_reg) then pc + nups_at ps (get_arg_bx i) + 1 else pc + 1
next_pc ps _ i lastpc reg pc = pc + 1

-- The loop of `symbexec`: `none` if it has not ended when the rounds run out. The place grows in every
-- round, so that `lastpc` rounds are enough.
unfoldable pub symb_loop : Head → Protos → ℕ → ℕ → ℕ → ℕ → ℕ → Option ℕ
symb_loop f ps lastpc reg zero pc last = if ltb pc lastpc then none else some (word_at f.code last)
symb_loop f ps lastpc reg (suc rounds) pc last =
    let i = word_at f.code pc in
    if ltb pc lastpc
    then elim (decode i) [
      | none ↦ some 0
      | some o ↦
          let rest =
            symb_loop f ps lastpc reg rounds (next_pc ps o i lastpc reg pc)
              (next_last o i reg pc last) in
          if checks f ps pc i o then rest else some 0
    ]
    else some (word_at f.code last)

-- The last instruction that changed `reg`, or 0 for a bad code
unfoldable pub symbexec : Proto → ℕ → ℕ → Option ℕ
symbexec (proto f ps d) lastpc reg =
    if precheck (proto f ps d)
    then symb_loop f ps lastpc reg lastpc 0 (length f.code - 1)
    else some 0

abbrev pub code_size : Proto → ℕ
code_size (proto f ps d) = length f.code

abbrev pub is_code : Option ℕ → Bool
is_code none = false
is_code (some i) = not (i == 0)

-- `luaG_checkcode`
unfoldable pub check_code : Proto → Bool
check_code p = is_code (symbexec p (code_size p) no_reg)

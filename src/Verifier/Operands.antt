-- ===== src/Verifier/Operands.antt =====
-- What `luaV_execute` (lua-5.1.5/src/lvm.c) reads and writes at an instruction.
use lua_5_1_source_guide.Base.{
  ℕ, zero, suc, ◌+◌, ◌-◌, ◌<◌, ◌≡◌, List, [], ◌∷◌, ◌++◌, true, ltb, ◌==◌, if◌then◌else◌, length,
  get_or,
}
use lua_5_1_source_guide.Opcodes.{get_arg_a, get_arg_b, get_arg_c, get_arg_bx, is_k, index_k}
use lua_5_1_source_guide.Opcodes.Table.{OpCode}
use lua_5_1_source_guide.Chunk.Proto.{Constant, Head, Protos, count}
use lua_5_1_source_guide.Verifier.{is_string, nups_at, word_at, has_op}

-- A thing that an instruction uses; `spare` is a place of the stack that may be behind the frame, where
-- the machine keeps `EXTRA_STACK` places (lua-5.1.5/src/lstate.h).
pub data Operand : Type 0 where
  register : ℕ → Operand
  constant : ℕ → Operand
  name : ℕ → Operand
  upvalue : ℕ → Operand
  nested : ℕ → Operand
  word : ℕ → Operand
  spare : ℕ → Operand

-- The operand of `RKB` and `RKC`
abbrev pub rk : ℕ → Operand
rk r = if is_k r then Operand.constant (index_k r) else Operand.register r

-- What the word of an upvalue of an `OP_CLOSURE` names: an upvalue of the function, or a register of it
unfoldable pub capture : ℕ → Operand
capture i =
    if has_op i OpCode.op_getupval
    then Operand.upvalue (get_arg_b i)
    else Operand.register (get_arg_b i)

-- The loop over the words behind an `OP_CLOSURE`, of which there are `nup`, from the last one on
unfoldable pub captured : List ℕ → ℕ → ℕ → List Operand
captured code pc zero = []
captured code pc (suc nup) = capture (word_at code (pc + suc nup)) ∷ captured code pc nup

-- Of a range of registers, the last one; the first is that of A. The ranges that end at `L->top` and the
-- values that `OP_VARARG` copies from below the frame are left out.
unfoldable pub operands : Head → Protos → ℕ → ℕ → OpCode → List Operand
operands f ps pc i OpCode.op_move =
    Operand.register (get_arg_a i) ∷ Operand.register (get_arg_b i) ∷ []
operands f ps pc i OpCode.op_loadk =
    Operand.register (get_arg_a i) ∷ Operand.constant (get_arg_bx i) ∷ []
operands f ps pc i OpCode.op_loadbool = Operand.register (get_arg_a i) ∷ []
operands f ps pc i OpCode.op_loadnil =
    Operand.register (get_arg_a i) ∷ Operand.register (get_arg_b i) ∷ []
operands f ps pc i OpCode.op_getupval =
    Operand.register (get_arg_a i) ∷ Operand.upvalue (get_arg_b i) ∷ []
operands f ps pc i OpCode.op_getglobal =
    Operand.register (get_arg_a i) ∷ Operand.name (get_arg_bx i) ∷ []
operands f ps pc i OpCode.op_gettable =
    Operand.register (get_arg_a i) ∷ Operand.register (get_arg_b i) ∷ rk (get_arg_c i) ∷ []
operands f ps pc i OpCode.op_setglobal =
    Operand.register (get_arg_a i) ∷ Operand.name (get_arg_bx i) ∷ []
operands f ps pc i OpCode.op_setupval =
    Operand.register (get_arg_a i) ∷ Operand.upvalue (get_arg_b i) ∷ []
operands f ps pc i OpCode.op_settable =
    Operand.register (get_arg_a i) ∷ rk (get_arg_b i) ∷ rk (get_arg_c i) ∷ []
operands f ps pc i OpCode.op_newtable = Operand.register (get_arg_a i) ∷ []
operands f ps pc i OpCode.op_self =
    Operand.register (get_arg_a i + 1)
    ∷ Operand.register (get_arg_a i)
    ∷ Operand.register (get_arg_b i)
    ∷ rk (get_arg_c i)
    ∷ []
operands f ps pc i OpCode.op_add =
    Operand.register (get_arg_a i) ∷ rk (get_arg_b i) ∷ rk (get_arg_c i) ∷ []
operands f ps pc i OpCode.op_sub =
    Operand.register (get_arg_a i) ∷ rk (get_arg_b i) ∷ rk (get_arg_c i) ∷ []
operands f ps pc i OpCode.op_mul =
    Operand.register (get_arg_a i) ∷ rk (get_arg_b i) ∷ rk (get_arg_c i) ∷ []
operands f ps pc i OpCode.op_div =
    Operand.register (get_arg_a i) ∷ rk (get_arg_b i) ∷ rk (get_arg_c i) ∷ []
operands f ps pc i OpCode.op_mod =
    Operand.register (get_arg_a i) ∷ rk (get_arg_b i) ∷ rk (get_arg_c i) ∷ []
operands f ps pc i OpCode.op_pow =
    Operand.register (get_arg_a i) ∷ rk (get_arg_b i) ∷ rk (get_arg_c i) ∷ []
operands f ps pc i OpCode.op_unm =
    Operand.register (get_arg_a i) ∷ Operand.register (get_arg_b i) ∷ []
operands f ps pc i OpCode.op_not =
    Operand.register (get_arg_a i) ∷ Operand.register (get_arg_b i) ∷ []
operands f ps pc i OpCode.op_len =
    Operand.register (get_arg_a i) ∷ Operand.register (get_arg_b i) ∷ []
operands f ps pc i OpCode.op_concat =
    Operand.register (get_arg_a i)
    ∷ Operand.register (get_arg_b i)
    ∷ Operand.register (get_arg_c i)
    ∷ []
operands f ps pc i OpCode.op_jmp = []
operands f ps pc i OpCode.op_eq = rk (get_arg_b i) ∷ rk (get_arg_c i) ∷ Operand.word (pc + 1) ∷ []
operands f ps pc i OpCode.op_lt = rk (get_arg_b i) ∷ rk (get_arg_c i) ∷ Operand.word (pc + 1) ∷ []
operands f ps pc i OpCode.op_le = rk (get_arg_b i) ∷ rk (get_arg_c i) ∷ Operand.word (pc + 1) ∷ []
operands f ps pc i OpCode.op_test = Operand.register (get_arg_a i) ∷ Operand.word (pc + 1) ∷ []
operands f ps pc i OpCode.op_testset =
    Operand.register (get_arg_a i) ∷ Operand.register (get_arg_b i) ∷ Operand.word (pc + 1) ∷ []
operands f ps pc i OpCode.op_call =
    Operand.register (get_arg_a i)
      ∷ (if get_arg_b i == 0 then [] else Operand.register (get_arg_a i + get_arg_b i - 1) ∷ [])
    ++ (if ltb 1 (get_arg_c i) then Operand.register (get_arg_a i + get_arg_c i - 2) ∷ [] else [])
operands f ps pc i OpCode.op_tailcall =
    Operand.register (get_arg_a i)
    ∷ (if get_arg_b i == 0 then [] else Operand.register (get_arg_a i + get_arg_b i - 1) ∷ [])
operands f ps pc i OpCode.op_return =
    if ltb 1 (get_arg_b i) then Operand.register (get_arg_a i + get_arg_b i - 2) ∷ [] else []
operands f ps pc i OpCode.op_forloop =
    Operand.register (get_arg_a i)
    ∷ Operand.register (get_arg_a i + 1)
    ∷ Operand.register (get_arg_a i + 2)
    ∷ Operand.register (get_arg_a i + 3)
    ∷ []
operands f ps pc i OpCode.op_forprep =
    Operand.register (get_arg_a i)
    ∷ Operand.register (get_arg_a i + 1)
    ∷ Operand.register (get_arg_a i + 2)
    ∷ []
operands f ps pc i OpCode.op_tforloop =
    Operand.register (get_arg_a i)
    ∷ Operand.register (get_arg_a i + 1)
    ∷ Operand.register (get_arg_a i + 2)
    ∷ Operand.register (get_arg_a i + 3)
    ∷ Operand.spare (get_arg_a i + 4)
    ∷ Operand.spare (get_arg_a i + 5)
    ∷ Operand.register (get_arg_a i + 2 + get_arg_c i)
    ∷ Operand.word (pc + 1)
    ∷ []
operands f ps pc i OpCode.op_setlist =
    Operand.register (get_arg_a i)
    ∷ Operand.register (get_arg_a i + get_arg_b i)
    ∷ (if get_arg_c i == 0 then Operand.word (pc + 1) ∷ [] else [])
operands f ps pc i OpCode.op_close = Operand.register (get_arg_a i) ∷ []
operands f ps pc i OpCode.op_closure =
    Operand.register (get_arg_a i)
    ∷ Operand.nested (get_arg_bx i)
    ∷ Operand.word (pc + nups_at ps (get_arg_bx i))
    ∷ captured f.code pc (nups_at ps (get_arg_bx i))
operands f ps pc i OpCode.op_vararg =
    if ltb 1 (get_arg_b i)
    then Operand.register (get_arg_a i) ∷ Operand.register (get_arg_a i + get_arg_b i - 2) ∷ []
    else []

abbrev pub extra_stack : ℕ
extra_stack = 5

-- It is there.
unfoldable pub InRange : Head → Protos → Operand → Type 0
InRange f ps (Operand.register r) = r < f.max_stack_size
InRange f ps (Operand.constant n) = n < length f.k
InRange f ps (Operand.name n) = (n < length f.k) × (is_string (get_or f.k n Constant.nil) ≡ true)
InRange f ps (Operand.upvalue n) = n < f.nups
InRange f ps (Operand.nested n) = n < count ps
InRange f ps (Operand.word n) = n < length f.code
InRange f ps (Operand.spare r) = r < f.max_stack_size + extra_stack

unfoldable pub AllInRange : Head → Protos → List Operand → Type 0
AllInRange f ps [] = Unit
AllInRange f ps (x ∷ xs) = InRange f ps x × AllInRange f ps xs

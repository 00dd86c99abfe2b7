-- ===== src/Verifier/Machine.antt =====
-- Where `luaV_execute` (lua-5.1.5/src/lvm.c) can go.
use lua_5_1_source_guide.Base.{
  ℕ, ◌+◌, ◌≤◌, ◌≡◌, ◌⊎◌, List, [], ◌∷◌, some, true, ◌==◌, if◌then◌else◌,
}
use lua_5_1_source_guide.Base.Int.{ℤ, pos}
use lua_5_1_source_guide.Opcodes.{get_arg_c, get_arg_bx}
use lua_5_1_source_guide.Opcodes.Table.{OpCode}
use lua_5_1_source_guide.Chunk.Proto.{Head, Protos}
use lua_5_1_source_guide.Verifier.{decode, word_at, has_op, jump_dest, nups_at}

-- The places that the `switch` of `luaV_execute` can go on to, after the instruction `i` at `pc`
unfoldable pub successors : Head → Protos → ℕ → ℕ → OpCode → List ℤ
successors f ps pc i OpCode.op_loadbool =
    if get_arg_c i == 0 then pos (pc + 1) ∷ [] else pos (pc + 2) ∷ []
successors f ps pc i OpCode.op_jmp = jump_dest pc i ∷ []
successors f ps pc i OpCode.op_eq = pos (pc + 2) ∷ jump_dest (pc + 1) (word_at f.code (pc + 1)) ∷ []
successors f ps pc i OpCode.op_lt = pos (pc + 2) ∷ jump_dest (pc + 1) (word_at f.code (pc + 1)) ∷ []
successors f ps pc i OpCode.op_le = pos (pc + 2) ∷ jump_dest (pc + 1) (word_at f.code (pc + 1)) ∷ []
successors f ps pc i OpCode.op_test =
    pos (pc + 2) ∷ jump_dest (pc + 1) (word_at f.code (pc + 1)) ∷ []
successors f ps pc i OpCode.op_testset =
    pos (pc + 2) ∷ jump_dest (pc + 1) (word_at f.code (pc + 1)) ∷ []
successors f ps pc i OpCode.op_tforloop =
    pos (pc + 2) ∷ jump_dest (pc + 1) (word_at f.code (pc + 1)) ∷ []
successors f ps pc i OpCode.op_return = []
successors f ps pc i OpCode.op_forloop = jump_dest pc i ∷ pos (pc + 1) ∷ []
successors f ps pc i OpCode.op_forprep = jump_dest pc i ∷ []
successors f ps pc i OpCode.op_setlist =
    if get_arg_c i == 0 then pos (pc + 2) ∷ [] else pos (pc + 1) ∷ []
successors f ps pc i OpCode.op_closure = pos (pc + 1 + nups_at ps (get_arg_bx i)) ∷ []
successors f ps pc i _ = pos (pc + 1) ∷ []

unfoldable pub Among : ℤ → List ℤ → Type 0
Among z [] = ⊥
Among z (x ∷ xs) = (x ≡ z) ⊎ Among z xs

-- The places that the machine reaches
pub data Flows (f : Head) (ps : Protos) : ℕ → Type 0 where
  entry : Flows f ps 0
  goes :
      {pc next : ℕ} (o : OpCode)
      → Flows f ps pc
      → decode (word_at f.code pc) ≡ some o
      → Among (pos next) (successors f ps pc (word_at f.code pc) o)
      → Flows f ps next

-- No `OP_LOADBOOL` has a C above 1, as in every code of the generator: `luaG_checkcode` tests C for 1,
-- but the machine skips for each C that is not 0.
unfoldable pub PlainBools : List ℕ → Type 0
PlainBools code =
    (j : ℕ) → has_op (word_at code j) OpCode.op_loadbool ≡ true → get_arg_c (word_at code j) ≤ 1

-- ===== src/Verifier/Progress.antt =====
-- The machine (lua-5.1.5/src/lvm.c) on a code that `luaG_checkcode` (lua-5.1.5/src/ldebug.c) accepted
-- never stops but at an `OP_RETURN`.
use lua_5_1_source_guide.Base.{
  ℕ, ◌<◌, ◌≡◌, ◌≢◌, ◌⊎◌, refl, subst, [], ◌∷◌, some, Bool, true, false, ◌==◌, if◌then◌else◌, length,
  inl, inr,
}
use lua_5_1_source_guide.Base.Int.{ℤ, pos}
use lua_5_1_source_guide.Opcodes.{get_arg_c}
use lua_5_1_source_guide.Opcodes.Table.{OpCode}
use lua_5_1_source_guide.Chunk.Proto.{Head, Protos, DebugInfo, proto}
use lua_5_1_source_guide.Verifier.{decode, word_at, check_code}
use lua_5_1_source_guide.Verifier.Walk.{check_code-Accepted}
use lua_5_1_source_guide.Verifier.Machine.{Among, Flows, goes, successors, PlainBools}
use lua_5_1_source_guide.Verifier.Landing.{Lands, Passed-at}
use lua_5_1_source_guide.Verifier.Flow.{successor-Lands, Flows-Lands, has_decoded, Flows-Checked}

either : (b : Bool) (x y : ℤ) → (z : ℤ) × Among z (if b then x ∷ [] else y ∷ [])
unfolding Among
either true x y = (x, inl refl)
either false x y = (y, inl refl)

successor :
    (f : Head) (ps : Protos) (pc i : ℕ) (o : OpCode)
    → o ≢ OpCode.op_return
    → (z : ℤ) × Among z (successors f ps pc i o)
unfolding successors Among
successor f ps pc i OpCode.op_loadbool ne = either (get_arg_c i == 0) _ _
successor f ps pc i OpCode.op_setlist ne = either (get_arg_c i == 0) _ _
successor f ps pc i OpCode.op_return ne = absurd (ne refl)
successor f ps pc i o ne = (_, inl refl)

is_return : (o : OpCode) → (o ≡ OpCode.op_return) ⊎ (o ≢ OpCode.op_return)
is_return OpCode.op_return = inl refl
is_return o = inr (λ e. cc)

-- When `luaG_checkcode` accepts a function in which no OP_LOADBOOL has a C above 1, then at every place
-- that the machine reaches there is an instruction, and if that is no OP_RETURN, there is a place where
-- the machine goes on, below the size of the code.
pub Flows-GoesOn :
    (f : Head) (ps : Protos) (d : DebugInfo)
    → check_code (proto f ps d) ≡ true
    → PlainBools f.code
    → (pc : ℕ) → Flows f ps pc
    → (o : OpCode) × (decode (word_at f.code pc) ≡ some o)
      × ((o ≡ OpCode.op_return)
          ⊎ ((next : ℕ) × Among (pos next) (successors f ps pc (word_at f.code pc) o)
              × (next < length f.code)
              × Flows f ps next))
unfolding PlainBools Lands
Flows-GoesOn f ps d h bools pc r =
    let c = (Flows-Checked f ps d h bools pc r).1 in
    let a = check_code-Accepted f ps d h in
    let (w, inside) = Flows-Lands f ps a bools pc r in
    (
      c.op,
      c.decoded,
      elim (is_return c.op) [
        | inl last ↦ inl last
        | inr ne ↦
            let (z, m) = successor f ps pc (word_at f.code pc) c.op ne in
            let (next, e, w', below) =
              successor-Lands f ps a pc c.op c.decoded w inside
                (λ same. bools pc (has_decoded _ c.op _ c.decoded same))
                (Passed-at f ps a pc c.op c.decoded w inside) z m in
            let m' : Among (pos next) (successors f ps pc (word_at f.code pc) c.op) =
              subst (λ (x : ℤ). Among x (successors f ps pc (word_at f.code pc) c.op)) e m in
            inr (next, m', below, goes c.op r c.decoded m')
      ],
    )

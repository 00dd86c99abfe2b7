-- ===== src/Verifier/Rounds.antt =====
-- The number of rounds of `symbexec` (lua-5.1.5/src/ldebug.c).
use lua_5_1_source_guide.Base.{
  ℕ, zero, suc, ◌+◌, ◌≤◌, ◌<◌, ◌≡◌, refl, ◌∙◌, arith, some, false, ltb, Bool-cases, Option-cases,
  inl, inr,
}
use lua_5_1_source_guide.Base.Int.{ℤ, pos, negsuc}
use lua_5_1_source_guide.Opcodes.Table.{OpCode}
use lua_5_1_source_guide.Chunk.Proto.{Head, Protos}
use lua_5_1_source_guide.Verifier.{
  decode, word_at, checks, follow_jump, jump_dest, next_pc, symb_loop,
}
use lua_5_1_source_guide.Verifier.Walk.{loop_bad, loop_fails, loop_goes}

follow_grows : (lastpc reg pc : ℕ) (z : ℤ) → pc < follow_jump lastpc reg pc z
unfolding follow_jump
follow_grows lastpc reg pc (negsuc n) = omega arith
follow_grows lastpc reg pc (pos dest) = ground arith

-- The place grows in every round, also when a jump is followed.
next_pc_grows : (ps : Protos) (o : OpCode) (i lastpc reg pc : ℕ) → pc < next_pc ps o i lastpc reg pc
unfolding next_pc
next_pc_grows ps OpCode.op_jmp i lastpc reg pc = follow_grows lastpc reg pc (jump_dest pc i)
next_pc_grows ps OpCode.op_forloop i lastpc reg pc = follow_grows lastpc reg pc (jump_dest pc i)
next_pc_grows ps OpCode.op_forprep i lastpc reg pc = follow_grows lastpc reg pc (jump_dest pc i)
next_pc_grows ps OpCode.op_setlist i lastpc reg pc = ground arith
next_pc_grows ps OpCode.op_closure i lastpc reg pc = ground arith
next_pc_grows ps _ i lastpc reg pc = omega arith

loop_ends :
    (f : Head) (ps : Protos) (lastpc reg rounds pc last : ℕ)
    → ltb pc lastpc ≡ false
    → symb_loop f ps lastpc reg rounds pc last ≡ some (word_at f.code last)
unfolding symb_loop
loop_ends f ps lastpc reg zero pc last e = rw (e, symb_loop) refl
loop_ends f ps lastpc reg (suc rounds) pc last e = rw (e, symb_loop) refl

-- For tracing a register as well as for checking the whole code, as many rounds as there are places up
-- to `lastpc` are enough: with any two such numbers of rounds the loop ends, and gives the same.
pub symb_loop-enough :
    (f : Head) (ps : Protos) (lastpc reg rounds more pc last : ℕ)
    → lastpc ≤ pc + rounds
    → lastpc ≤ pc + more
    → (i : ℕ) × (symb_loop f ps lastpc reg rounds pc last ≡ some i)
      × (symb_loop f ps lastpc reg more pc last ≡ some i)
symb_loop-enough f ps lastpc reg zero more pc last h k =
    let outside : ltb pc lastpc ≡ false = ground arith in
    (
      word_at f.code last,
      loop_ends f ps lastpc reg zero pc last outside,
      loop_ends f ps lastpc reg more pc last outside,
    )
symb_loop-enough f ps lastpc reg (suc r) zero pc last h k =
    let outside : ltb pc lastpc ≡ false = ground arith in
    (
      word_at f.code last,
      loop_ends f ps lastpc reg (suc r) pc last outside,
      loop_ends f ps lastpc reg zero pc last outside,
    )
symb_loop-enough f ps lastpc reg (suc r) (suc m) pc last h k = elim (Bool-cases (ltb pc lastpc)) [
  | inr outside ↦ (
    word_at f.code last,
    loop_ends f ps lastpc reg (suc r) pc last outside,
    loop_ends f ps lastpc reg (suc m) pc last outside,
  )
  | inl inside ↦ elim (Option-cases (decode (word_at f.code pc))) [
    | inl bad ↦ (
      0,
      loop_bad f ps lastpc reg r pc last inside bad,
      loop_bad f ps lastpc reg m pc last inside bad,
    )
    | inr (o, e) ↦ elim (Bool-cases (checks f ps pc (word_at f.code pc) o)) [
      | inr fails ↦ (
        0,
        loop_fails f ps lastpc reg r pc last inside o e fails,
        loop_fails f ps lastpc reg m pc last inside o e fails,
      )
      | inl passes ↦
          let grows = next_pc_grows ps o (word_at f.code pc) lastpc reg pc in
          let (i, ends, same) =
            symb_loop-enough f ps lastpc reg r m _ _ (omega (arith, h, grows))
              (omega (arith, k, grows)) in
          (
            i,
            loop_goes f ps lastpc reg r pc last inside o e passes ∙ ends,
            loop_goes f ps lastpc reg m pc last inside o e passes ∙ same,
          )
    ]
  ]
]

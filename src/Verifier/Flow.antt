-- ===== src/Verifier/Flow.antt =====
-- Where `luaV_execute` (lua-5.1.5/src/lvm.c) goes in a code that `luaG_checkcode` accepted.
use lua_5_1_source_guide.Base.{
  ℕ, zero, suc, ◌+◌, ◌≤◌, ◌<◌, ◌≡◌, ◌⊎◌, refl, sym, ap, subst, arith, [], ◌∷◌, some, true, false,
  ◌==◌, length, Bool-cases, inl, inr,
}
use lua_5_1_source_guide.Base.Int.{ℤ, pos, negsuc}
use lua_5_1_source_guide.Opcodes.{get_arg_c, get_arg_bx}
use lua_5_1_source_guide.Opcodes.Table.{
  OpCode, op_value, get_op_mode, op_modes, op_mode, test_t_mode,
}
use lua_5_1_source_guide.Chunk.Proto.{Head, Protos, DebugInfo, proto}
use lua_5_1_source_guide.Verifier.{
  decode, word_at, has_op, is_setlist0, check_pseudo, check_op, nups_at, check_code,
}
use lua_5_1_source_guide.Verifier.Walk.{
  decode-op_value, decode-op, Walk, start, Checked, Accepted, Checked-at, check_code-Accepted,
  after_one, after_count,
}
use lua_5_1_source_guide.Verifier.Machine.{Among, Flows, entry, goes, successors, PlainBools}
use lua_5_1_source_guide.Verifier.Landing.{
  Passed, Lands, dest_jmp, dest_forloop, dest_forprep, Passed-at, check_dest-Lands, not_last, other,
  plain, skip-Lands, nonempty,
}

module _ (f : Head) (ps : Protos) (a : Accepted f ps) where
  pseudo_plain :
      (pc nup : ℕ)
      → check_pseudo f.code pc (suc nup) ≡ true
      → is_setlist0 (word_at f.code (pc + suc nup)) ≡ false
  unfolding check_pseudo is_setlist0 op_value
  pseudo_plain pc nup h = ground arith

  pub pseudo_rest :
      (pc nup : ℕ) → check_pseudo f.code pc (suc nup) ≡ true → check_pseudo f.code pc nup ≡ true
  unfolding check_pseudo
  pseudo_rest pc nup h = ground arith

  pub pseudo_walk :
      (pc nup : ℕ)
      → Walk f.code (pc + 1)
      → pc + nup < length f.code
      → check_pseudo f.code pc nup ≡ true
      → Walk f.code (pc + 1 + nup)
  pseudo_walk pc zero w h c = subst (Walk f.code) (omega arith) w
  pseudo_walk pc (suc nup) w h c =
      let before = pseudo_walk pc nup w (omega (arith, h)) (pseudo_rest pc nup c) in
      let here : Walk f.code (pc + suc nup) = subst (Walk f.code) (omega arith) before in
      subst (Walk f.code) (omega arith)
        (after_one f.code (pc + suc nup) here h (pseudo_plain pc nup c))

  pub pseudo_either :
      (pc nup : ℕ)
      → check_pseudo f.code pc (suc nup) ≡ true
      → (has_op (word_at f.code (pc + suc nup)) OpCode.op_getupval ≡ true)
        ⊎ (has_op (word_at f.code (pc + suc nup)) OpCode.op_move ≡ true)
  unfolding check_pseudo
  pseudo_either pc nup h = ground arith

  pseudo_inside :
      (pc nup : ℕ)
      → pc + 1 < length f.code
      → pc + nup < length f.code
      → check_pseudo f.code pc nup ≡ true
      → pc + 1 + nup < length f.code
  unfolding op_value
  pseudo_inside pc zero one h c = omega (arith, one)
  pseudo_inside pc (suc nup) one h c =
      let i = word_at f.code (pc + suc nup) in
      let past : pc + suc nup + 1 < length f.code = elim (pseudo_either pc nup c) [
        | inl op ↦
            not_last f ps a (pc + suc nup) OpCode.op_getupval (decode-op i OpCode.op_getupval op)
              (omega arith) h
        | inr op ↦
            not_last f ps a (pc + suc nup) OpCode.op_move (decode-op i OpCode.op_move op)
              (omega arith) h
      ] in
      omega (arith, past)

  closure-Lands :
      (pc : ℕ)
      → decode (word_at f.code pc) ≡ some OpCode.op_closure
      → Walk f.code pc
      → pc < length f.code
      → Passed f ps pc (word_at f.code pc) OpCode.op_closure
      → Lands f (pos (pc + 1 + nups_at ps (get_arg_bx (word_at f.code pc))))
  unfolding Lands check_op op_value
  closure-Lands pc e w h passed =
      let nup = nups_at ps (get_arg_bx (word_at f.code pc)) in
      let w1 = after_one f.code pc w h (other f ps a pc OpCode.op_closure e (omega arith)) in
      let inside : pc + nup < length f.code = ground (arith, passed.op) in
      let pseudo : check_pseudo f.code pc nup ≡ true = ground (arith, passed.op) in
      (
        pc + 1 + nup,
        refl,
        pseudo_walk pc nup w1 inside pseudo,
        pseudo_inside pc nup (not_last f ps a pc OpCode.op_closure e (omega arith) h) inside pseudo,
      )

  two-Lands : (z u v : ℤ) → Lands f u × Lands f v → Among z (u ∷ v ∷ []) → Lands f z
  unfolding Among
  two-Lands z u v l (inl e) = subst (Lands f) e l.0
  two-Lands z u v l (inr (inl e)) = subst (Lands f) e l.1
  two-Lands z u v l (inr (inr n)) = elim n [ ]

  one-Lands : (z u : ℤ) → Lands f u → Among z (u ∷ []) → Lands f z
  unfolding Among
  one-Lands z u l (inl e) = subst (Lands f) e l
  one-Lands z u l (inr n) = elim n [ ]

  bool-Lands :
      (pc : ℕ)
      → decode (word_at f.code pc) ≡ some OpCode.op_loadbool
      → Walk f.code pc
      → pc < length f.code
      → Passed f ps pc (word_at f.code pc) OpCode.op_loadbool
      → get_arg_c (word_at f.code pc) ≤ 1
      → (z : ℤ) → Among z (successors f ps pc (word_at f.code pc) OpCode.op_loadbool)
      → Lands f z
  unfolding successors check_op op_value is_setlist0 Lands
  bool-Lands pc e w h passed small z m =
      let i = word_at f.code pc in
      elim (Bool-cases (get_arg_c i == 0)) [
        | inl stays ↦
            one-Lands z _ (plain f ps a pc OpCode.op_loadbool e (omega arith) (omega arith) w h)
              (subst (Among z) (rw stays refl) m)
        | inr skips ↦
            let one : (get_arg_c i == 1) ≡ true = ground arith in
            let inside : pc + 2 < length f.code = ground (arith, passed.op, one) in
            let no_count : is_setlist0 (word_at f.code (pc + 1)) ≡ false =
              ground (arith, passed.op, one) in
            let w1 = after_one f.code pc w h (other f ps a pc OpCode.op_loadbool e (omega arith)) in
            let w2 = after_one f.code (pc + 1) w1 (omega (arith, inside)) no_count in
            one-Lands z _ (pc + 2, refl, subst (Walk f.code) (omega arith) w2, inside)
              (subst (Among z) (rw skips refl) m)
      ]

  setlist-Lands :
      (pc : ℕ)
      → decode (word_at f.code pc) ≡ some OpCode.op_setlist
      → Walk f.code pc
      → pc < length f.code
      → Passed f ps pc (word_at f.code pc) OpCode.op_setlist
      → (z : ℤ) → Among z (successors f ps pc (word_at f.code pc) OpCode.op_setlist)
      → Lands f z
  unfolding successors check_op op_value is_setlist0 Lands
  setlist-Lands pc e w h passed z m =
      let i = word_at f.code pc in
      let value = decode-op_value i OpCode.op_setlist e in
      elim (Bool-cases (get_arg_c i == 0)) [
        | inl count ↦
            let inside : pc + 2 < length f.code = ground (arith, passed.op, count) in
            one-Lands z _
              (pc + 2, refl, after_count f.code pc w h (ground (arith, value, count)), inside)
              (subst (Among z) (rw count refl) m)
        | inr direct ↦
            one-Lands z _
              (
                pc + 1,
                refl,
                after_one f.code pc w h (ground (arith, direct)),
                not_last f ps a pc OpCode.op_setlist e (omega arith) h,
              )
              (subst (Among z) (rw direct refl) m)
      ]

  pub successor-Lands :
      (pc : ℕ) (o : OpCode)
      → decode (word_at f.code pc) ≡ some o
      → Walk f.code pc
      → pc < length f.code
      → (o ≡ OpCode.op_loadbool → get_arg_c (word_at f.code pc) ≤ 1)
      → Passed f ps pc (word_at f.code pc) o
      → (z : ℤ) → Among z (successors f ps pc (word_at f.code pc) o)
      → Lands f z
  unfolding successors op_value get_op_mode op_modes op_mode test_t_mode Among
  successor-Lands pc OpCode.op_loadbool e w h small passed z m =
      bool-Lands pc e w h passed (small refl) z m
  successor-Lands pc OpCode.op_jmp e w h small passed z m =
      one-Lands z _ (check_dest-Lands f ps a _ (dest_jmp f pc _ passed.mode)) m
  successor-Lands pc OpCode.op_eq e w h small passed z m =
      two-Lands z _ _ (skip-Lands f ps a pc OpCode.op_eq e (omega arith) w h passed.skip refl) m
  successor-Lands pc OpCode.op_lt e w h small passed z m =
      two-Lands z _ _ (skip-Lands f ps a pc OpCode.op_lt e (omega arith) w h passed.skip refl) m
  successor-Lands pc OpCode.op_le e w h small passed z m =
      two-Lands z _ _ (skip-Lands f ps a pc OpCode.op_le e (omega arith) w h passed.skip refl) m
  successor-Lands pc OpCode.op_test e w h small passed z m =
      two-Lands z _ _ (skip-Lands f ps a pc OpCode.op_test e (omega arith) w h passed.skip refl) m
  successor-Lands pc OpCode.op_testset e w h small passed z m =
      two-Lands z _ _ (skip-Lands f ps a pc OpCode.op_testset e (omega arith) w h passed.skip refl)
        m
  successor-Lands pc OpCode.op_tforloop e w h small passed z m =
      two-Lands z _ _ (skip-Lands f ps a pc OpCode.op_tforloop e (omega arith) w h passed.skip refl)
        m
  successor-Lands pc OpCode.op_return e w h small passed z m = elim m [ ]
  successor-Lands pc OpCode.op_forloop e w h small passed z m =
      two-Lands z _ _
        (
          check_dest-Lands f ps a _ (dest_forloop f pc _ passed.mode),
          plain f ps a pc OpCode.op_forloop e (omega arith) (omega arith) w h,
        )
        m
  successor-Lands pc OpCode.op_forprep e w h small passed z m =
      one-Lands z _ (check_dest-Lands f ps a _ (dest_forprep f pc _ passed.mode)) m
  successor-Lands pc OpCode.op_setlist e w h small passed z m = setlist-Lands pc e w h passed z m
  successor-Lands pc OpCode.op_closure e w h small passed z m =
      one-Lands z _ (closure-Lands pc e w h passed) m
  successor-Lands pc o e w h small passed z m =
      one-Lands z _ (plain f ps a pc o e (omega arith) (omega arith) w h) m

pub has_decoded : (i : ℕ) (o p : OpCode) → decode i ≡ some o → o ≡ p → has_op i p ≡ true
has_decoded i o p e same = ground (arith, decode-op_value i o e, ap op_value same)

landed : (f : Head) (n : ℕ) → Lands f (pos n) → Walk f.code n × (n < length f.code)
unfolding Lands
landed f n (d, e, w, h) =
    let same : d ≡ n = ap (λ (z : ℤ). elim z [ pos m ↦ m | negsuc m ↦ n ]) (sym e) in
    (subst (Walk f.code) same w, subst (λ (m : ℕ). m < length f.code) same h)

pub Flows-Lands :
    (f : Head) (ps : Protos) (a : Accepted f ps)
    → PlainBools f.code
    → (pc : ℕ) → Flows f ps pc
    → Walk f.code pc × (pc < length f.code)
unfolding PlainBools
Flows-Lands f ps a bools _ entry = (start, nonempty f ps a)
Flows-Lands f ps a bools _ (goes {pc = pc} {next = next} o r e m) =
    let (w, h) = Flows-Lands f ps a bools pc r in
    let l =
      successor-Lands f ps a pc o e w h (λ same. bools pc (has_decoded _ o _ e same))
        (Passed-at f ps a pc o e w h) (pos next) m in
    landed f next l

-- When `luaG_checkcode` accepts a function in which no OP_LOADBOOL has a C above 1, every place that
-- `luaV_execute` reaches, by any ways through the tests and loops, is below the size of the code, and
-- the word there is an instruction with a known opcode that has passed all checks.
pub Flows-Checked :
    (f : Head) (ps : Protos) (d : DebugInfo)
    → check_code (proto f ps d) ≡ true
    → PlainBools f.code
    → (pc : ℕ) → Flows f ps pc
    → (pc < length f.code) × Checked f ps pc
Flows-Checked f ps d h bools pc r =
    let a = check_code-Accepted f ps d h in
    let (w, inside) = Flows-Lands f ps a bools pc r in (inside, Checked-at f ps a pc w inside)

-- ===== src/Verifier/Landing.antt =====
-- The destinations of the jumps in a code that `luaG_checkcode` (lua-5.1.5/src/ldebug.c) accepted.
use lua_5_1_source_guide.Base.{
  ℕ, zero, suc, ◌+◌, ◌-◌, bit_and, ◌<◌, ◌≡◌, ◌≢◌, refl, sym, ap, subst, ◌∙◌, arith, Option, none,
  some, true, false, ltb, length, Bool-cases, inl, inr,
}
use lua_5_1_source_guide.Base.Int.{ℤ, pos, negsuc}
use lua_5_1_source_guide.Base.Bits.{low_mask}
use lua_5_1_source_guide.Opcodes.{get_arg_a}
use lua_5_1_source_guide.Opcodes.Table.{
  OpCode, op_value, get_op_mode, op_modes, op_mode, get_b_mode, test_t_mode,
}
use lua_5_1_source_guide.Chunk.Proto.{Head, Protos, DebugInfo, proto}
use lua_5_1_source_guide.Verifier.{
  decode, word_at, has_op, precheck, is_setlist0, setlists_before, check_dest, jump_dest,
  check_mode, check_skip, check_op, check_reg, checks,
}
use lua_5_1_source_guide.Verifier.Walk.{
  decode-op_value, decode-op, Walk, start, Accepted, Checked-at, after_one, and_left, and_right,
}
use lua_5_1_source_guide.Verifier.Parity.{parity}

-- A destination that is visited by `luaG_checkcode`
unfoldable pub Lands : Head → ℤ → Type 0
Lands f z = (d : ℕ) × (z ≡ pos d) × Walk f.code d × (d < length f.code)

-- The four groups of checks of one instruction
pub record Passed (f : Head) (ps : Protos) (pc i : ℕ) (o : OpCode) : Type 0 where
  pub reg : check_reg f (get_arg_a i) ≡ true
  pub mode : check_mode f pc i o ≡ true
  pub skip : check_skip f pc o ≡ true
  pub op : check_op f ps pc i o ≡ true

pub checks-Passed :
    (f : Head) (ps : Protos) (pc i : ℕ) (o : OpCode)
    → checks f ps pc i o ≡ true
    → Passed f ps pc i o
unfolding checks
checks-Passed f ps pc i o h =
    let rest = and_right (check_reg f (get_arg_a i)) _ h in
    let tail = and_right (check_mode f pc i o) _ rest in
    record {
      reg = and_left _ _ h;
      mode = and_left _ _ rest;
      skip = and_left (check_skip f pc o) _ tail;
      op = and_right (check_skip f pc o) _ tail;
    }

last_returns :
    (f : Head) (ps : Protos) (d : DebugInfo)
    → precheck (proto f ps d) ≡ true
    → has_op (word_at f.code (length f.code - 1)) OpCode.op_return ≡ true
unfolding precheck
last_returns f ps d h = ground arith

some_code :
    (f : Head) (ps : Protos) (d : DebugInfo) → precheck (proto f ps d) ≡ true → 0 < length f.code
unfolding precheck
some_code f ps d h = ground arith

pub dest_jmp :
    (f : Head) (pc i : ℕ)
    → check_mode f pc i OpCode.op_jmp ≡ true
    → check_dest f.code (jump_dest pc i) ≡ true
unfolding check_mode op_value get_op_mode get_b_mode op_modes op_mode
dest_jmp f pc i h = h

pub dest_forloop :
    (f : Head) (pc i : ℕ)
    → check_mode f pc i OpCode.op_forloop ≡ true
    → check_dest f.code (jump_dest pc i) ≡ true
unfolding check_mode op_value get_op_mode get_b_mode op_modes op_mode
dest_forloop f pc i h = h

pub dest_forprep :
    (f : Head) (pc i : ℕ)
    → check_mode f pc i OpCode.op_forprep ≡ true
    → check_dest f.code (jump_dest pc i) ≡ true
unfolding check_mode op_value get_op_mode get_b_mode op_modes op_mode
dest_forprep f pc i h = h

module _ (f : Head) (ps : Protos) (a : Accepted f ps) where
  pub nonempty : 0 < length f.code
  nonempty = some_code f ps a.prechecked.0 a.prechecked.1

  pub Passed-at :
      (pc : ℕ) (o : OpCode)
      → decode (word_at f.code pc) ≡ some o
      → Walk f.code pc
      → pc < length f.code
      → Passed f ps pc (word_at f.code pc) o
  Passed-at pc o e w h =
      let c = Checked-at f ps a pc w h in
      let same : c.op ≡ o =
        ap (λ (q : Option OpCode). elim q [ none ↦ o | some x ↦ x ]) (sym c.decoded ∙ e) in
      checks-Passed f ps pc _ o
        (subst (λ (x : OpCode). checks f ps pc (word_at f.code pc) x ≡ true) same c.passes)

  pub check_dest-Lands : (z : ℤ) → check_dest f.code z ≡ true → Lands f z
  unfolding check_dest Lands
  check_dest-Lands (negsuc n) h = cc
  check_dest-Lands (pos zero) h = (0, refl, start, nonempty)
  check_dest-Lands (pos (suc d)) h =
      let inside : suc d < length f.code = ground arith in
      let even : bit_and (setlists_before f.code (suc d)) 1 ≡ 0 = ground arith in
      (
        suc d,
        refl,
        (parity f.code (suc d) (omega (arith, inside))).0
            (omega (arith, even, low_mask 1 (setlists_before f.code (suc d)))),
        inside,
      )

  pub not_last :
      (pc : ℕ) (o : OpCode)
      → decode (word_at f.code pc) ≡ some o
      → op_value o ≢ op_value OpCode.op_return
      → pc < length f.code
      → pc + 1 < length f.code
  not_last pc o e ne h =
      let value = decode-op_value (word_at f.code pc) o e in
      let returns = last_returns f ps a.prechecked.0 a.prechecked.1 in
      elim (Bool-cases (ltb (pc + 1) (length f.code))) [
        | inl inside ↦ ground arith
        | inr outside ↦
            let at_end : length f.code - 1 ≡ pc = ground arith in
            let op : has_op (word_at f.code pc) OpCode.op_return ≡ true =
              subst (λ (n : ℕ). has_op (word_at f.code n) OpCode.op_return ≡ true) at_end returns in
            absurd (ne (sym value ∙ ground (arith, op)))
      ]

  pub other :
      (pc : ℕ) (o : OpCode)
      → decode (word_at f.code pc) ≡ some o
      → op_value o ≢ op_value OpCode.op_setlist
      → is_setlist0 (word_at f.code pc) ≡ false
  unfolding is_setlist0
  other pc o e ne = let value = decode-op_value (word_at f.code pc) o e in ground arith

  pub plain :
      (pc : ℕ) (o : OpCode)
      → decode (word_at f.code pc) ≡ some o
      → op_value o ≢ op_value OpCode.op_return
      → op_value o ≢ op_value OpCode.op_setlist
      → Walk f.code pc
      → pc < length f.code
      → Lands f (pos (pc + 1))
  unfolding Lands
  plain pc o e ne no_list w h =
      (pc + 1, refl, after_one f.code pc w h (other pc o e no_list), not_last pc o e ne h)

  -- The word behind a test is a jump, and both ways lead to visited places.
  pub skip-Lands :
      (pc : ℕ) (o : OpCode)
      → decode (word_at f.code pc) ≡ some o
      → op_value o ≢ op_value OpCode.op_setlist
      → Walk f.code pc
      → pc < length f.code
      → check_skip f pc o ≡ true
      → test_t_mode (op_value o) ≡ true
      → Lands f (pos (pc + 2)) × Lands f (jump_dest (pc + 1) (word_at f.code (pc + 1)))
  unfolding check_skip Lands op_value
  skip-Lands pc o e no_list w h skip t =
      let inside : pc + 2 < length f.code = ground arith in
      let jump : has_op (word_at f.code (pc + 1)) OpCode.op_jmp ≡ true = ground arith in
      let decoded = decode-op (word_at f.code (pc + 1)) OpCode.op_jmp jump in
      let w1 = after_one f.code pc w h (other pc o e no_list) in
      let w2 =
        after_one f.code (pc + 1) w1 (omega (arith, inside))
          (other (pc + 1) OpCode.op_jmp decoded (omega arith)) in
      let passed = Passed-at (pc + 1) OpCode.op_jmp decoded w1 (omega (arith, inside)) in
      (
        (pc + 2, refl, subst (Walk f.code) (omega arith) w2, inside),
        check_dest-Lands _ (dest_jmp f (pc + 1) _ passed.mode),
      )

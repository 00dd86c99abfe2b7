-- ===== src/Verifier/Arguments.antt =====
-- What the arguments of an instruction name, when it has passed the checks of `luaG_checkcode`
-- (lua-5.1.5/src/ldebug.c).
use lua_5_1_source_guide.Base.{
  ℕ, ◌+◌, ◌-◌, ◌&&◌, ◌<◌, ◌≡◌, refl, subst, arith, List, [], ◌∷◌, ◌++◌, Bool, true, false, ltb,
  ◌==◌, if◌then◌else◌, length, Bool-cases, inl, inr,
}
use lua_5_1_source_guide.Opcodes.{abc, get_arg_a, get_arg_b, get_arg_c, get_arg_bx, is_k, index_k}
use lua_5_1_source_guide.Opcodes.Table.{
  OpCode, op_value, arg_r, arg_k, arg_value, mode_value, get_op_mode, get_b_mode, get_c_mode,
  test_t_mode,
}
use lua_5_1_source_guide.Chunk.Proto.{Head, Protos}
use lua_5_1_source_guide.Verifier.{check_reg, check_arg_mode, check_mode, check_skip, check_call}
use lua_5_1_source_guide.Verifier.Walk.{and_left, and_right}
use lua_5_1_source_guide.Verifier.Landing.{Passed}
use lua_5_1_source_guide.Verifier.Operands.{Operand, rk, InRange, AllInRange}

module _ (f : Head) (ps : Protos) where
  pub reg-InRange : (r : ℕ) → check_reg f r ≡ true → InRange f ps (Operand.register r)
  unfolding InRange
  reg-InRange r h = ground arith

  pub arg-InRange :
      (r : ℕ) → check_arg_mode f r (arg_value arg_r) ≡ true → InRange f ps (Operand.register r)
  unfolding InRange check_arg_mode
  arg-InRange r h = ground arith

  pub rk-InRange : (r : ℕ) → check_arg_mode f r (arg_value arg_k) ≡ true → InRange f ps (rk r)
  unfolding InRange check_arg_mode
  rk-InRange r h = elim (Bool-cases (is_k r)) [
    | inl c ↦
        subst (InRange f ps) {x = Operand.constant (index_k r)} (rw c refl) (ground (arith, h, c))
    | inr n ↦ subst (InRange f ps) {x = Operand.register r} (rw n refl) (ground (arith, h, n))
  ]

  module _ (pc i : ℕ) (o : OpCode) (p : Passed f ps pc i o) where
    pub a_reg : InRange f ps (Operand.register (get_arg_a i))
    a_reg = reg-InRange (get_arg_a i) p.reg

    -- The arguments of an instruction of the mode `iABC`
    module _ (abc_mode : get_op_mode (op_value o) ≡ mode_value abc) where
      both :
          check_arg_mode f (get_arg_b i) (get_b_mode (op_value o))
            && check_arg_mode f (get_arg_c i) (get_c_mode (op_value o))
          ≡ true
      unfolding check_mode
      both = subst (λ (b : Bool). b ≡ true) (rw abc_mode refl) p.mode

      pub b_reg :
          get_b_mode (op_value o) ≡ arg_value arg_r → InRange f ps (Operand.register (get_arg_b i))
      b_reg e =
          arg-InRange _
            (subst (λ (m : ℕ). check_arg_mode f (get_arg_b i) m ≡ true) e (and_left _ _ both))

      pub c_reg :
          get_c_mode (op_value o) ≡ arg_value arg_r → InRange f ps (Operand.register (get_arg_c i))
      c_reg e = arg-InRange _ (
          subst (λ (m : ℕ). check_arg_mode f (get_arg_c i) m ≡ true) e
            (and_right (check_arg_mode f (get_arg_b i) _) _ both))

      pub b_rk : get_b_mode (op_value o) ≡ arg_value arg_k → InRange f ps (rk (get_arg_b i))
      b_rk e =
          rk-InRange _
            (subst (λ (m : ℕ). check_arg_mode f (get_arg_b i) m ≡ true) e (and_left _ _ both))

      pub c_rk : get_c_mode (op_value o) ≡ arg_value arg_k → InRange f ps (rk (get_arg_c i))
      c_rk e = rk-InRange _ (
          subst (λ (m : ℕ). check_arg_mode f (get_arg_c i) m ≡ true) e
            (and_right (check_arg_mode f (get_arg_b i) _) _ both))

    pub next_word : test_t_mode (op_value o) ≡ true → InRange f ps (Operand.word (pc + 1))
    unfolding check_skip InRange
    next_word t = ground (arith, p.skip, t)

  pub constant_there :
      (pc i : ℕ) (o : OpCode)
      → Passed f ps pc i o
      → get_op_mode (op_value o) ≡ 1
      → get_b_mode (op_value o) ≡ 3
      → get_arg_bx i < length f.k
  unfolding check_mode
  constant_there pc i o p m b = ground (arith, p.mode, m, b)

  pub when-InRange :
      (b : Bool) (xs : List Operand)
      → (b ≡ true → AllInRange f ps xs)
      → AllInRange f ps (if b then xs else [])
  unfolding AllInRange
  when-InRange true xs h = h refl
  when-InRange false xs h = tt

  pub unless-InRange :
      (b : Bool) (xs : List Operand)
      → (b ≡ false → AllInRange f ps xs)
      → AllInRange f ps (if b then [] else xs)
  unfolding AllInRange
  unless-InRange true xs h = tt
  unless-InRange false xs h = h refl

  pub append-InRange :
      (xs ys : List Operand) → AllInRange f ps xs → AllInRange f ps ys → AllInRange f ps (xs ++ ys)
  unfolding AllInRange
  append-InRange [] ys h l = l
  append-InRange (x ∷ xs) ys h l = (h.0, append-InRange xs ys h.1 l)

  -- The tops of the operands and of the results of a call
  module _ (pc i : ℕ) (h : check_call f pc i ≡ true) where
    pub arguments-InRange :
        AllInRange f ps
          (if get_arg_b i == 0 then [] else Operand.register (get_arg_a i + get_arg_b i - 1) ∷ [])
    unfolding check_call AllInRange InRange
    arguments-InRange =
        unless-InRange (get_arg_b i == 0) _ (λ some_args. (ground (arith, h, some_args), tt))

    pub results-InRange :
        AllInRange f ps (
          if ltb 1 (get_arg_c i) then Operand.register (get_arg_a i + get_arg_c i - 2) ∷ [] else [])
    unfolding check_call AllInRange InRange
    results-InRange =
        when-InRange (ltb 1 (get_arg_c i)) _ (λ some_results. (ground (arith, h, some_results), tt))

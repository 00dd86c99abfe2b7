-- ===== src/Tables/Length.antt =====
-- `luaH_getn` (lua-5.1.5/src/ltable.c) finds a boundary.
use lua_5_1_source_guide.Base.{
  List, [], ◌∷◌, zero, suc, subst, sym, ℕ, ◌+◌, ◌-◌, ◌^◌, ◌≤◌, ◌<◌, ◌≡◌, ◌⊎◌, refl, ap, ◌∙◌, arith,
  Bool, true, false, Option, none, some, ◌&&◌, ltb, leb, if◌then◌else◌, inl, inr, Bool-cases,
  length, get_or,
}
use lua_5_1_source_guide.Verifier.Walk.{and_right}
use lua_5_1_source_guide.Tables.{Node, dummynode, find_number, hashnum, Table, is_nil, getnum, getn}
use lua_5_1_source_guide.Tables.Search.{Present, IsBoundary, binary-IsBoundary, unbound-IsBoundary}

both_true : {A : Type 0} (a b : Bool) → a ≡ true → b ≡ true → a && b ≡ false → A
both_true true true p q h = absurd cc
both_true true false p q h = absurd cc
both_true false b p q h = absurd cc

otherwise : {A : Type 0} (b : Bool) (x y : A) → b ≡ false → (if b then x else y) ≡ y
otherwise true x y h = absurd cc
otherwise false x y h = refl

module _ {V : Type 0} (luai_numeq : ℕ → ℕ → Bool) (cast_num : ℕ → ℕ) (t : Table V) where
  nil_at : ℕ → Bool
  nil_at n = is_nil (getnum luai_numeq cast_num t n)

  array_at : ℕ → Bool
  array_at m = is_nil (get_or t.array (m - 1) none)

  same_at : (n : ℕ) → n ≤ length t.array → nil_at n ≡ array_at n
  unfolding nil_at array_at getnum
  same_at n h = let inside : leb n (length t.array) ≡ true = ground arith in rw inside refl

  dummy_finds :
      (nk rounds n : ℕ)
      → ◌≡◌ {A = Option V} (find_number luai_numeq cast_num (dummynode ∷ []) nk rounds n) none
  unfolding find_number
  dummy_finds nk zero n = refl
  dummy_finds nk (suc rounds) zero = refl
  dummy_finds nk (suc rounds) (suc n) = refl

  beyond : (n : ℕ) → t.node ≡ dummynode ∷ [] → length t.array < n → nil_at n ≡ true
  unfolding nil_at getnum
  beyond n e h =
      let outside : leb n (length t.array) ≡ false = ground arith in
      let nothing =
        dummy_finds (cast_num n) (length t.node)
          (hashnum luai_numeq cast_num t.node (cast_num n)) in
      rw outside (
        ap is_nil (
          subst
            (λ (node : List (Node V)).
              find_number luai_numeq cast_num node (cast_num n) (length t.node)
                (hashnum luai_numeq cast_num t.node (cast_num n))
              ≡ none)
            (sym e) nothing))

  nil_none : (o : Option V) → is_nil o ≡ true → o ≡ none
  nil_none none h = refl
  nil_none (some v) h = absurd cc

  full : Bool
  full = ltb 0 (length t.array) && array_at (length t.array)

  -- The last place of the array is present, or there is none.
  last-Present : full ≡ false → Present nil_at (length t.array)
  unfolding Present full
  last-Present h = elim (Bool-cases (ltb 0 (length t.array))) [
    | inr empty ↦ inl (ground (arith, empty))
    | inl some_places ↦ inr (
        same_at (length t.array) (omega arith) ∙ (elim (Bool-cases (array_at (length t.array))) [
          | inr there ↦ there
          | inl gone ↦
              both_true (ltb 0 (length t.array)) (array_at (length t.array)) some_places gone h
        ]))
  ]

  -- A table whose array part is within MAXASIZE, whose node, when it is the shared one, is empty, and that has some
  -- key from 1 to `keys` absent: `luaH_getn` ends, and gives 0 or a present index, behind which the next
  -- one is absent.
  pub getn-IsBoundary :
      (keys stop : ℕ)
      → length t.array ≤ 2 ^ 26
      → (t.is_dummy ≡ true → t.node ≡ dummynode ∷ [])
      → 1 ≤ stop
      → stop ≤ keys
      → getnum luai_numeq cast_num t stop ≡ none
      → (n : ℕ) × (getn luai_numeq cast_num keys t ≡ some n)
        × ((n ≡ 0) ⊎ (is_nil (getnum luai_numeq cast_num t n) ≡ false))
        × (getnum luai_numeq cast_num t (n + 1) ≡ none)
  unfolding getn IsBoundary Present nil_at array_at full
  getn-IsBoundary keys stop a b c d e = elim (Bool-cases full) [
    | inl gone ↦
        let (n, r, (p, q), below) =
          binary-IsBoundary array_at (length t.array) 0 (length t.array) (ground (arith, gone))
            (omega arith) (inl refl) (and_right (ltb 0 (length t.array)) _ gone) in
        (
          n,
          rw gone r,
          elim p [ inl z ↦ inl z | inr there ↦ inr (same_at n (omega (arith, below)) ∙ there) ],
          nil_none _ (same_at (n + 1) (omega (arith, below)) ∙ q),
        )
    | inr last ↦ elim (Bool-cases t.is_dummy) [
      | inl dummy ↦ (
        length t.array,
        rw (last, dummy) refl,
        last-Present last,
        nil_none _ (beyond (length t.array + 1) (b dummy) (omega arith)),
      )
      | inr nodes ↦
          let (n, r, (p, q)) =
            unbound-IsBoundary nil_at keys (length t.array) stop (last-Present last)
              (omega (arith, a)) c d (ap is_nil e) in
          (n, rw last (otherwise t.is_dummy _ _ nodes ∙ r), p, nil_none _ q)
    ]
  ]

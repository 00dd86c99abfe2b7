-- ===== src/Tables/Search.antt =====
-- The searches for a boundary (lua-5.1.5/src/ltable.c), over a test for nil.
use lua_5_1_source_guide.Base.{
  ℕ, zero, suc, ◌+◌, ◌-◌, ◌*◌, ◌/◌, ◌≤◌, ◌<◌, ◌≡◌, ◌≢◌, ◌⊎◌, refl, arith, Bool, true, false, some,
  ltb, inl, inr, Bool-cases, subst,
}
use lua_5_1_source_guide.Code.Emit.{max_int}
use lua_5_1_source_guide.Tables.{binary_search, linear_search, doubling, unbound_search}

-- `i` is zero or a present index.
unfoldable pub Present : (ℕ → Bool) → ℕ → Type 0
Present absent i = (i ≡ 0) ⊎ (absent i ≡ false)

-- The last index before an absent one
unfoldable pub IsBoundary : (ℕ → Bool) → ℕ → Type 0
IsBoundary absent n = Present absent n × (absent (n + 1) ≡ true)

pub binary-IsBoundary :
    (absent : ℕ → Bool) (rounds i j : ℕ)
    → i < j
    → j ≤ i + 1 + rounds
    → Present absent i
    → absent j ≡ true
    → (n : ℕ) × (binary_search absent rounds i j ≡ some n) × IsBoundary absent n × (n < j)
unfolding binary_search IsBoundary Present
binary-IsBoundary absent zero i j h k p q =
    (i, ground arith, (p, subst (λ (n : ℕ). absent n ≡ true) (omega arith) q), h)
binary-IsBoundary absent (suc rounds) i j h k p q = elim (Bool-cases (ltb 1 (j - i))) [
  | inr close ↦
      (i, rw close refl, (p, subst (λ (n : ℕ). absent n ≡ true) (ground (arith, close)) q), h)
  | inl apart ↦ elim (Bool-cases (absent ((i + j) / 2))) [
    | inl gone ↦
        let (n, e, b, below) =
          binary-IsBoundary absent rounds i ((i + j) / 2) (ground (arith, apart))
            (ground (arith, apart)) p gone in
        (n, rw (apart, gone) e, b, ground (arith, below, apart))
    | inr there ↦
        let (n, e, b, below) =
          binary-IsBoundary absent rounds ((i + j) / 2) j (ground (arith, apart))
            (ground (arith, apart)) (inr there) q in
        (n, rw (apart, there) e, b, below)
  ]
]

pub linear-IsBoundary :
    (absent : ℕ → Bool) (rounds i stop : ℕ)
    → 1 ≤ i
    → Present absent (i - 1)
    → i ≤ stop
    → absent stop ≡ true
    → stop < i + rounds
    → (n : ℕ) × (linear_search absent rounds i ≡ some n) × IsBoundary absent n
unfolding linear_search IsBoundary Present
linear-IsBoundary absent zero i stop a p b c d = absurd (omega arith)
linear-IsBoundary absent (suc rounds) i stop a p b c d = elim (Bool-cases (absent i)) [
  | inl gone ↦ (i - 1, rw gone refl, (p, subst (λ (n : ℕ). absent n ≡ true) (omega arith) gone))
  | inr there ↦
      let ne : i ≢ stop = λ e. cc in
      let here : absent (i + 1 - 1) ≡ false =
        subst (λ (n : ℕ). absent n ≡ false) (omega arith) there in
      let (n, e, b) =
        linear-IsBoundary absent rounds (i + 1) stop (omega arith) (inr here) (omega (arith, ne)) c
          (omega arith) in
      (n, rw there e, b)
]

-- `j`, doubled so many times
abbrev doubled : ℕ → ℕ → ℕ
doubled zero j = j
doubled (suc rounds) j = doubled rounds (j * 2)

doubling-IsBoundary :
    (absent : ℕ → Bool) (keys rounds i j stop : ℕ)
    → i < j
    → Present absent i
    → j ≤ max_int
    → max_int < doubled rounds j
    → 1 ≤ stop
    → stop ≤ keys
    → absent stop ≡ true
    → (n : ℕ) × (doubling absent keys rounds i j ≡ some n) × IsBoundary absent n
unfolding doubling Present
doubling-IsBoundary absent keys zero i j stop a p b c d e f = absurd (omega arith)
doubling-IsBoundary absent keys (suc rounds) i j stop a p b c d e f = elim (Bool-cases (absent j)) [
  | inl gone ↦
      let (n, r, boundary, below) = binary-IsBoundary absent j i j a (omega arith) p gone in
      (n, rw gone r, boundary)
  | inr there ↦ elim (Bool-cases (ltb max_int (j * 2))) [
    | inl overflow ↦
        let (n, r, boundary) =
          linear-IsBoundary absent keys 1 stop (omega arith) (inl refl) d f (omega arith) in
        (n, rw (there, overflow) r, boundary)
    | inr fits ↦
        let (n, r, boundary) =
          doubling-IsBoundary absent keys rounds j (j * 2) stop (omega arith) (inr there)
            (ground (arith, fits)) c d e f in
        (n, rw (there, fits) r, boundary)
  ]
]

pub unbound-IsBoundary :
    (absent : ℕ → Bool) (keys j stop : ℕ)
    → Present absent j
    → j < max_int
    → 1 ≤ stop
    → stop ≤ keys
    → absent stop ≡ true
    → (n : ℕ) × (unbound_search absent keys j ≡ some n) × IsBoundary absent n
unfolding unbound_search
unbound-IsBoundary absent keys j stop p b d e f =
    doubling-IsBoundary absent keys 32 j (j + 1) stop (omega arith) p (omega arith) (omega arith) d
      e f

-- ===== src/Tables/Sizes.antt =====
-- `computesizes` (lua-5.1.5/src/ltable.c): the best size of the array part.
use lua_5_1_source_guide.Base.{
  ℕ, zero, suc, ◌+◌, ◌*◌, ◌/◌, ◌^◌, ◌≤◌, ◌<◌, ◌≡◌, ◌⊎◌, refl, ap, ◌∙◌, arith, List, Bool, true,
  false, Option, none, some, ◌&&◌, ltb, ◌==◌, if◌then◌else◌, inl, inr, Bool-cases, subst, get_or,
}
use lua_5_1_source_guide.Verifier.Walk.{and_right}
use native.Mathlib.Nat.{two-pow-succ, pow-le-pow_right}

-- The loop over `i`, with `twotoi`, `a`, `na` and `n`: the new `*narray` and what is returned
unfoldable pub size_loop : List ℕ → ℕ → ℕ → ℕ → ℕ → ℕ → ℕ → ℕ → Option (ℕ × ℕ)
size_loop nums narray zero i twotoi a na n = none
size_loop nums narray (suc rounds) i twotoi a na n =
    let x = get_or nums i 0 in
    let a' = a + x in
    let better = ltb 0 x && ltb (twotoi / 2) a' in
    let n' = if better then twotoi else n in
    let na' = if better then a' else na in
    let more = size_loop nums narray rounds (i + 1) (twotoi * 2) a' na' n' in
    if ltb (twotoi / 2) narray
    then (if a' == narray then some (n', na') else more)
    else some (n, na)

-- Twenty-eight rounds are enough for MAXASIZE keys.
unfoldable pub computesizes : List ℕ → ℕ → Option (ℕ × ℕ)
computesizes nums narray = size_loop nums narray 28 0 1 0 0 0

-- The keys up to `2 ^ k`
unfoldable pub keys_up_to : List ℕ → ℕ → ℕ
keys_up_to nums zero = get_or nums 0 0
keys_up_to nums (suc k) = keys_up_to nums k + get_or nums (suc k) 0

-- What `nums` counts: no more keys than there are numbers, `narray` in all
pub record Counts (nums : List ℕ) (narray : ℕ) : Type 0 where
  pub distinct : (k : ℕ) → keys_up_to nums k ≤ 2 ^ k
  pub all : (k : ℕ) → keys_up_to nums k ≤ narray

-- `n` is 0, or a power of two of which more than half is in use, by `na` keys; and from any larger power
-- of two below `2 ^ i` at most half would be in use.
pub record Best (nums : List ℕ) (i n na : ℕ) : Type 0 where
  pub used :
      ((n ≡ 0) × (na ≡ 0)) ⊎ ((j : ℕ) × (n ≡ 2 ^ j) × (na ≡ keys_up_to nums j) × (n / 2 < na))
  pub largest : (k : ℕ) → k < i → n < 2 ^ k → keys_up_to nums k ≤ 2 ^ k / 2

power_next : (i : ℕ) → 2 ^ (i + 1) ≡ 2 ^ i * 2
power_next i =
    let same : suc i ≡ i + 1 = omega arith in
    omega (arith, two-pow-succ i, ap (λ (k : ℕ). 2 ^ k) same)

monotone : (i k : ℕ) → i ≤ k → 2 ^ i ≤ 2 ^ k
monotone i k h = pow-le-pow_right (omega arith) h

-- The same for all powers of two; and the assertion of the source
pub record Optimal (nums : List ℕ) (n na : ℕ) : Type 0 where
  pub used :
      ((n ≡ 0) × (na ≡ 0)) ⊎ ((j : ℕ) × (n ≡ 2 ^ j) × (na ≡ keys_up_to nums j) × (n / 2 < na))
  pub largest : (k : ℕ) → n < 2 ^ k → keys_up_to nums k ≤ 2 ^ k / 2
  pub asserted : (n / 2 ≤ na) × (na ≤ n)

module _ (nums : List ℕ) (narray : ℕ) (c : Counts nums narray) where
  -- The state of the loop
  record Going (i a n na : ℕ) : Type 0 where
    total : a + get_or nums i 0 ≡ keys_up_to nums i
    before : a ≤ 2 ^ i / 2
    best : Best nums i n na

  next_total : (i : ℕ) → keys_up_to nums i + get_or nums (i + 1) 0 ≡ keys_up_to nums (i + 1)
  unfolding keys_up_to
  next_total i =
      let same : suc i ≡ i + 1 = omega arith in
      subst (λ (k : ℕ). keys_up_to nums i + get_or nums k 0 ≡ keys_up_to nums k) same refl

  better-Best :
      (i a n na : ℕ)
      → Going i a n na
      → ltb (2 ^ i / 2) (a + get_or nums i 0) ≡ true
      → Best nums (i + 1) (2 ^ i) (a + get_or nums i 0)
  better-Best i a n na g h = record {
    used = inr (i, refl, g.total, ground (arith, h));
    largest = λ k x y. absurd (omega (arith, monotone k i (omega arith), y));
  }

  worse-Best :
      (i a n na : ℕ)
      → Going i a n na
      → (get_or nums i 0 ≡ 0) ⊎ (a + get_or nums i 0 ≤ 2 ^ i / 2)
      → Best nums (i + 1) n na
  worse-Best i a n na g h = record {
    used = g.best.used;
    largest = λ k x y. elim (Bool-cases (k == i)) [
      | inl e ↦
          let here : i ≡ k = ground arith in
          subst (λ (m : ℕ). keys_up_to nums m ≤ 2 ^ m / 2) here
            (omega (arith, g.total, g.before, h))
      | inr e ↦ g.best.largest k (ground (arith, e)) y
    ];
  }

  asserted :
      (n na : ℕ)
      → ((n ≡ 0) × (na ≡ 0)) ⊎ ((j : ℕ) × (n ≡ 2 ^ j) × (na ≡ keys_up_to nums j) × (n / 2 < na))
      → (n / 2 ≤ na) × (na ≤ n)
  asserted n na (inl (a, b)) = omega (arith, a, b)
  asserted n na (inr (j, a, b, d)) = omega (arith, a, b, d, c.distinct j)

  -- Enough keys are counted when the loop is left.
  finish : (i n na : ℕ) → Best nums i n na → narray ≤ 2 ^ i / 2 → Optimal nums n na
  finish i n na b h = record {
    used = b.used;
    largest = λ k x. elim (Bool-cases (ltb k i)) [
      | inl e ↦ b.largest k (ground (arith, e)) x
      | inr e ↦ omega (arith, c.all k, h, monotone i k (ground (arith, e)))
    ];
    asserted = asserted n na b.used;
  }

  all_counted : (i : ℕ) → keys_up_to nums i ≡ narray → narray ≤ 2 ^ (i + 1) / 2
  all_counted i e =
      let same : suc i ≡ i + 1 = omega arith in
      omega (arith, c.distinct i, two-pow-succ i, ap (λ (k : ℕ). 2 ^ k) same)

  advanced :
      (i a n na : ℕ)
      → Going i a n na
      → (n' na' : ℕ) → Best nums (i + 1) n' na'
      → Going (i + 1) (a + get_or nums i 0) n' na'
  advanced i a n na g n' na' b =
      let same : suc i ≡ i + 1 = omega arith in
      record {
        total = ap (λ (x : ℕ). x + get_or nums (i + 1) 0) g.total ∙ next_total i;
        before = omega (arith, g.total, c.distinct i, two-pow-succ i, ap (λ (k : ℕ). 2 ^ k) same);
        best = b;
      }

  chosen :
      (i a n na : ℕ)
      → Going i a n na
      → (b : Bool) → ltb 0 (get_or nums i 0) && ltb (2 ^ i / 2) (a + get_or nums i 0) ≡ b
      → Best nums (i + 1) (if b then 2 ^ i else n) (if b then a + get_or nums i 0 else na)
  chosen i a n na g true e = better-Best i a n na g (and_right (ltb 0 (get_or nums i 0)) _ e)
  chosen i a n na g false e = worse-Best i a n na g (ground (arith, e))

  module _ (rounds i twotoi a na n : ℕ) where
    better : Bool
    better = ltb 0 (get_or nums i 0) && ltb (twotoi / 2) (a + get_or nums i 0)

    size_stops :
        ltb (twotoi / 2) narray ≡ false
        → size_loop nums narray (suc rounds) i twotoi a na n ≡ some (n, na)
    unfolding size_loop
    size_stops e = rw e refl

    size_breaks :
        ltb (twotoi / 2) narray ≡ true
        → (a + get_or nums i 0 == narray) ≡ true
        → size_loop nums narray (suc rounds) i twotoi a na n
          ≡ some (if better then twotoi else n, if better then a + get_or nums i 0 else na)
    unfolding size_loop better
    size_breaks e f = rw (e, f) refl

    size_goes :
        ltb (twotoi / 2) narray ≡ true
        → (a + get_or nums i 0 == narray) ≡ false
        → size_loop nums narray (suc rounds) i twotoi a na n
          ≡ size_loop nums narray rounds
              (i + 1)
              (twotoi * 2)
              (a + get_or nums i 0)
              (if better then a + get_or nums i 0 else na)
              (if better then twotoi else n)
    unfolding size_loop better
    size_goes e f = rw (e, f) refl

  EndsOptimal : ℕ → ℕ → ℕ → ℕ → ℕ → ℕ → Type 0
  EndsOptimal rounds i twotoi a na n =
      (n' : ℕ) × (na' : ℕ) × (size_loop nums narray rounds i twotoi a na n ≡ some (n', na'))
      × Optimal nums n' na'

  loop-Optimal :
      (rounds i a n na : ℕ)
      → narray ≤ 2 ^ (i + rounds) / 2
      → Going i a n na
      → EndsOptimal (suc rounds) i (2 ^ i) a na n
  unfolding EndsOptimal better
  loop-Optimal zero i a n na h g = elim (Bool-cases (ltb (2 ^ i / 2) narray)) [
    | inr out ↦
        (n, na, size_stops 0 i (2 ^ i) a na n out, finish i n na g.best (ground (arith, out)))
    | inl inside ↦
        let here : i + 0 ≡ i = omega arith in
        absurd (ground (arith, inside, subst (λ (k : ℕ). narray ≤ 2 ^ k / 2) here h))
  ]
  loop-Optimal (suc rounds) i a n na h g =
      let b = chosen i a n na g (better (suc rounds) i (2 ^ i) a na n) refl in
      elim (Bool-cases (ltb (2 ^ i / 2) narray)) [
        | inr out ↦ (
          n,
          na,
          size_stops (suc rounds) i (2 ^ i) a na n out,
          finish i n na g.best (ground (arith, out)),
        )
        | inl inside ↦ elim (Bool-cases (a + get_or nums i 0 == narray)) [
          | inl counted ↦ (
            _,
            _,
            size_breaks (suc rounds) i (2 ^ i) a na n inside counted,
            finish (i + 1) _ _ b (all_counted i (ground (arith, counted, g.total))),
          )
          | inr rest ↦
              let moved : i + suc rounds ≡ i + 1 + rounds = omega arith in
              let power : 2 ^ (i + 1) ≡ 2 ^ i * 2 = power_next i in
              let (n', na', r, o) =
                loop-Optimal rounds (i + 1) _ _ _ (subst (λ (k : ℕ). narray ≤ 2 ^ k / 2) moved h)
                  (advanced i a n na g _ _ b) in
              (
                n',
                na',
                size_goes (suc rounds) i (2 ^ i) a na n inside rest
                    ∙ subst
                        (λ (k : ℕ).
                          size_loop nums narray (suc rounds) (i + 1) k (a + get_or nums i 0)
                            (if better (suc rounds) i (2 ^ i) a na n
                              then a + get_or nums i 0
                              else na)
                            (if better (suc rounds) i (2 ^ i) a na n then 2 ^ i else n)
                          ≡ some (n', na'))
                        power r,
                o,
              )
        ]
      ]

  -- Of keys counted in `nums`, `narray` in all and at most MAXASIZE, `computesizes` finds the largest power
  -- of two of which more than half would be in use, or 0 if there is none, and the number of keys up to
  -- it; and its assertion holds.
  pub computesizes-Optimal :
      narray ≤ 2 ^ 26
      → (n : ℕ) × (na : ℕ) × (computesizes nums narray ≡ some (n, na)) × Optimal nums n na
  unfolding computesizes keys_up_to EndsOptimal
  computesizes-Optimal h = loop-Optimal 27 0 0 0 0 (omega arith) (record {
    total = omega arith;
    before = omega arith;
    best = record { used = inl (refl, refl); largest = λ k x y. absurd (omega arith) };
  })

-- ===== src/Verifier/Parity.antt =====
-- The test of a jump in `luaG_checkcode` (lua-5.1.5/src/ldebug.c): a destination is not the count of an
-- `OP_SETLIST`.
use lua_5_1_source_guide.Base.{
  ℕ, zero, suc, ◌+◌, ◌%◌, ◌≤◌, ◌<◌, ◌≡◌, ◌⊎◌, refl, subst, arith, List, true, false, length,
  Bool-cases, inl, inr,
}
use lua_5_1_source_guide.Verifier.{word_at, is_setlist0, setlists_before}
use lua_5_1_source_guide.Verifier.Walk.{Walk, start, after_count, after_one}

-- A place is visited, or holds the count of an `OP_SETLIST` that is.
pub Covered : List ℕ → ℕ → Type 0
Covered code n =
    Walk code n ⊎ ((m : ℕ) × (n ≡ suc m) × Walk code m × (is_setlist0 (word_at code m) ≡ true))

after_covered :
    (code : List ℕ) (n : ℕ)
    → n < length code
    → is_setlist0 (word_at code n) ≡ false
    → Covered code n
    → Walk code (n + 1)
unfolding Covered
after_covered code n h e (inl w) = after_one code n w h e
after_covered code n h e (inr (m, eq, w, count)) =
    subst (Walk code) (omega (arith, eq)) (after_count code m w (omega (arith, eq, h)) count)

pub cover : (code : List ℕ) (n : ℕ) → n ≤ length code → Covered code n
unfolding Covered
cover code zero h = inl start
cover code (suc n) h = elim (Bool-cases (is_setlist0 (word_at code n))) [
  | inr other ↦
      inl (
        subst (Walk code) (omega arith) (after_covered code n h other (cover code n (omega arith))))
  | inl count ↦ elim (cover code n (omega arith)) [
    | inl w ↦ inr (n, refl, w, count)
    | inr (m, eq, w, before) ↦
        inl (
          subst (Walk code) (omega (arith, eq))
            (after_count code m w (omega (arith, eq, h)) before))
  ]
]

pub Counted : List ℕ → ℕ → Type 0
Counted code n = (m : ℕ) × (n ≡ suc m) × Walk code m × (is_setlist0 (word_at code m) ≡ true)

before_more :
    (code : List ℕ) (d : ℕ)
    → is_setlist0 (word_at code d) ≡ true
    → setlists_before code (suc d) ≡ suc (setlists_before code d)
unfolding setlists_before
before_more code d e = rw e refl

before_none :
    (code : List ℕ) (d : ℕ)
    → is_setlist0 (word_at code d) ≡ false
    → setlists_before code (suc d) ≡ 0
unfolding setlists_before
before_none code d e = rw e refl

-- The parity of the words before a place that look like an `OP_SETLIST` with a count tells whether it
-- is visited.
pub parity :
    (code : List ℕ) (d : ℕ)
    → d ≤ length code
    → (setlists_before code d % 2 ≡ 0 → Walk code d)
      × (setlists_before code d % 2 ≡ 1 → Counted code d)
unfolding setlists_before Counted Covered
parity code zero h = ((λ even. start), λ odd. absurd (omega arith))
parity code (suc d) h = elim (Bool-cases (is_setlist0 (word_at code d))) [
  | inl count ↦
      let (even_case, odd_case) = parity code d (omega arith) in
      let more = before_more code d count in
      (
        (λ even.
            let (m, eq, w, before) = odd_case (omega (arith, more, even)) in
            subst (Walk code) (omega (arith, eq))
              (after_count code m w (omega (arith, eq, h)) before)),
        λ odd. (d, refl, even_case (omega (arith, more, odd)), count),
      )
  | inr other ↦ (
    (λ even.
        subst (Walk code) (omega arith)
          (after_covered code d h other (cover code d (omega arith)))),
    λ odd. absurd (omega (arith, before_none code d other, odd)),
  )
]

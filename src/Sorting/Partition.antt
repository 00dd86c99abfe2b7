-- ===== src/Sorting/Partition.antt =====
-- The partition of `auxsort` (lua-5.1.5/src/ltablib.c) with an order that never fails.
use lua_5_1_source_guide.Base.{
  ℕ, zero, suc, ◌+◌, ◌-◌, ◌≤◌, ◌<◌, ◌≡◌, refl, sym, ap, ◌∙◌, arith, Bool, true, false, ltb, max,
  min, ◌==◌, inl, inr, Bool-cases, subst,
}
use lua_5_1_source_guide.Sorting.{ok, ◌>>=◌, set2, partition}
use lua_5_1_source_guide.Sorting.Shuffle.{
  Shuffle, same-Shuffle, then-Shuffle, set2-left, set2-right, set2-other, set2-Shuffle,
}
use lua_5_1_source_guide.Sorting.Scans.{pure, Up, scan_up-Up, Down, scan_down-Down}

module _ {V : Type 0} (lt : V → V → Bool) where
  -- From `a` to `b` no value is above `p`; none is below it.
  unfoldable pub AtMost : (ℕ → V) → V → ℕ → ℕ → Type 0
  AtMost t p a b = (k : ℕ) → a ≤ k → k ≤ b → lt p (t k) ≡ false

  unfoldable pub AtLeast : (ℕ → V) → V → ℕ → ℕ → Type 0
  AtLeast t p a b = (k : ℕ) → a ≤ k → k ≤ b → lt (t k) p ≡ false

  -- `a[l..i] <= P <= a[j..u]`
  pub record Halves (t : ℕ → V) (l u : ℕ) (p : V) (i j : ℕ) : Type 0 where
    pub first : l ≤ i
    pub order : i ≤ j
    pub room : i + 2 ≤ u
    pub low_room : l < j
    pub high_room : j < u
    pub low : AtMost t p l i
    pub high : AtLeast t p j u
    pub pivot : t (u - 1) ≡ p

  pub record Parted (rounds : ℕ) (t : ℕ → V) (l u : ℕ) (p : V) (i j : ℕ) : Type 0 where
    pub table : ℕ → V
    pub at : ℕ
    pub runs : partition (pure lt) rounds t l u p i j ≡ ok (table, at)
    pub after : l < at
    pub before : at < u
    pub low : AtMost table p l (at - 1)
    pub high : AtLeast table p at u
    pub pivot : table (u - 1) ≡ p
    pub shuffled : Shuffle l u t table

  module _ (t : ℕ → V) (l u : ℕ) (p : V) (i j : ℕ) (h : Halves t l u p i j) where
    up : Up lt (u + 2) t u p i (max j (i + 1))
    unfolding AtLeast
    up =
        scan_up-Up lt (u + 2) t u p i (max j (i + 1)) (omega arith)
          (omega (arith, h.room, h.high_room))
          (h.high (max j (i + 1)) (omega arith) (omega (arith, h.room, h.high_room)))
          (omega (arith, h.room, h.high_room))

    down : Down lt (j + 1) t l p j (min i (j - 1))
    unfolding AtMost
    down =
        scan_down-Down lt (j + 1) t l p j (min i (j - 1)) (omega (arith, h.low_room))
          (omega (arith, h.low_room, h.first))
          (h.low (min i (j - 1)) (omega (arith, h.low_room, h.first)) (omega arith)) (omega arith)

    -- What the scans have passed
    passed_low :
        (asym : (a b : V) → lt a b ≡ true → lt b a ≡ false) (k : ℕ)
        → l ≤ k
        → k < up.at
        → lt p (t k) ≡ false
    unfolding AtMost
    passed_low asym k a b = elim (Bool-cases (ltb i k)) [
      | inl later ↦ asym (t k) p (up.passed k (ground arith) b)
      | inr early ↦ h.low k a (ground arith)
    ]

    passed_high :
        (asym : (a b : V) → lt a b ≡ true → lt b a ≡ false) (k : ℕ)
        → down.at < k
        → k ≤ u
        → lt (t k) p ≡ false
    unfolding AtLeast
    passed_high asym k a b = elim (Bool-cases (ltb k j)) [
      | inl early ↦ asym p (t k) (down.passed k a (ground arith))
      | inr later ↦ h.high k (ground arith) b
    ]

    done :
        (asym : (a b : V) → lt a b ≡ true → lt b a ≡ false) (rounds : ℕ)
        → ltb down.at up.at ≡ true
        → Parted (suc rounds) t l u p i j
    unfolding partition ◌>>=◌ AtMost AtLeast
    done asym rounds e = record {
      table = t;
      at = up.at;
      runs = rw (up.runs, down.runs, e) refl;
      after = omega (arith, h.first, up.above);
      before = omega (arith, h.high_room, h.room, up.below);
      low = λ k a b. passed_low asym k a (omega (arith, b, up.above));
      high = λ k a b. passed_high asym k (ground (arith, e, a)) b;
      pivot = h.pivot;
      shuffled = same-Shuffle l u t;
    }

    swapped : ℕ → V
    swapped = set2 t up.at down.at

    swapped-Halves :
        (asym : (a b : V) → lt a b ≡ true → lt b a ≡ false)
        → up.at ≤ down.at
        → Halves swapped l u p up.at down.at
    unfolding swapped AtMost AtLeast
    swapped-Halves asym le = record {
      first = omega (arith, h.first, up.above);
      order = le;
      room = omega (arith, le, down.below, h.high_room);
      low_room = omega (arith, le, up.above, h.first);
      high_room = omega (arith, down.below, h.high_room);
      low = λ k a b. elim (Bool-cases (k == up.at)) [
        | inl e ↦
            let here : k ≡ up.at = ground arith in
            subst (λ (x : V). lt p x ≡ false) (sym (ap swapped here ∙ set2-left t up.at down.at))
              down.stays
        | inr e ↦
            subst (λ (x : V). lt p x ≡ false)
              (sym (set2-other t up.at down.at k (ground (arith, e)) (ground (arith, e, b, le))))
              (passed_low asym k a (ground (arith, e, b)))
      ];
      high = λ k a b. elim (Bool-cases (k == down.at)) [
        | inl e ↦
            let here : k ≡ down.at = ground arith in
            subst (λ (x : V). lt x p ≡ false) (sym (ap swapped here ∙ set2-right t up.at down.at))
              up.stays
        | inr e ↦
            subst (λ (x : V). lt x p ≡ false)
              (sym (set2-other t up.at down.at k (ground (arith, e, a, le)) (ground (arith, e))))
              (passed_high asym k (ground (arith, e, a)) b)
      ];
      pivot =
          set2-other t up.at down.at (u - 1) (omega (arith, le, down.below, h.high_room))
            (omega (arith, down.below, h.high_room))
          ∙ h.pivot;
    }

    swapped-Shuffle : up.at ≤ down.at → Shuffle l u t swapped
    unfolding swapped
    swapped-Shuffle le =
        set2-Shuffle l u up.at down.at t (omega (arith, up.above, h.first))
          (omega (arith, le, down.below, h.high_room)) (omega (arith, le, up.above, h.first))
          (omega (arith, down.below, h.high_room))

    goes_on :
        (rounds : ℕ)
        → ltb down.at up.at ≡ false
        → partition (pure lt) (suc rounds) t l u p i j
          ≡ partition (pure lt) rounds swapped l u p up.at down.at
    unfolding partition ◌>>=◌ swapped
    goes_on rounds e = rw (up.runs, down.runs, e) refl

  -- The loop ends: `j` falls in every round.
  pub partition-Parted :
      (asym : (a b : V) → lt a b ≡ true → lt b a ≡ false) (rounds : ℕ) (t : ℕ → V) (l u : ℕ) (p : V)
      (i j : ℕ)
      → Halves t l u p i j
      → j < rounds
      → Parted rounds t l u p i j
  partition-Parted asym zero t l u p i j h enough = absurd (omega arith)
  partition-Parted asym (suc rounds) t l u p i j h enough =
      let a = up t l u p i j h in
      let b = down t l u p i j h in
      elim (Bool-cases (ltb b.at a.at)) [
        | inl e ↦ done t l u p i j h asym rounds e
        | inr e ↦
            let le : a.at ≤ b.at = ground arith in
            let r =
              partition-Parted asym rounds (swapped t l u p i j h) l u p a.at b.at
                (swapped-Halves t l u p i j h asym le) (omega (arith, b.below, enough)) in
            record {
              table = r.table;
              at = r.at;
              runs = goes_on t l u p i j h rounds e ∙ r.runs;
              after = r.after;
              before = r.before;
              low = r.low;
              high = r.high;
              pivot = r.pivot;
              shuffled = then-Shuffle (swapped-Shuffle t l u p i j h le) r.shuffled;
            }
      ]

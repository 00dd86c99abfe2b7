-- ===== src/Sorting/Pieces.antt =====
-- The steps of `auxsort` (lua-5.1.5/src/ltablib.c) beside the partition.
use lua_5_1_source_guide.Base.{
  ℕ, ◌+◌, ◌-◌, ◌≤◌, ◌<◌, ◌≡◌, ◌⊎◌, refl, sym, ◌∙◌, arith, Bool, true, false, ◌==◌, inl, inr,
  Bool-cases, subst,
}
use lua_5_1_source_guide.Sorting.{ok, ◌>>=◌, set2, sort_comp, sort_ends, sort_middle, split}
use lua_5_1_source_guide.Sorting.Shuffle.{
  Shuffle, same-Shuffle, then-Shuffle, set2-left, set2-right, set2-other, set2-Shuffle,
}
use lua_5_1_source_guide.Sorting.Scans.{pure}
use lua_5_1_source_guide.Sorting.Partition.{AtMost, AtLeast, Halves, Parted, partition-Parted}

-- A strict weak order
pub record IsOrder {V : Type 0} (lt : V → V → Bool) : Type 0 where
  pub asym : (a b : V) → lt a b ≡ true → lt b a ≡ false
  pub cotrans : (a b c : V) → lt a c ≡ true → (lt a b ≡ true) ⊎ (lt b c ≡ true)

module _ {V : Type 0} (lt : V → V → Bool) (o : IsOrder lt) where
  pub irreflexive : (a : V) → lt a a ≡ false
  irreflexive a = elim (Bool-cases (lt a a)) [ inl e ↦ o.asym a a e | inr e ↦ e ]

  pub at_most_trans : (a b c : V) → lt b a ≡ false → lt c b ≡ false → lt c a ≡ false
  at_most_trans a b c x y = elim (Bool-cases (lt c a)) [
    | inr e ↦ e
    | inl e ↦ elim (o.cotrans c b a e) [ inl f ↦ absurd cc | inr f ↦ absurd cc ]
  ]

  pub record EndsSorted (t : ℕ → V) (l u : ℕ) : Type 0 where
    pub table : ℕ → V
    pub runs : sort_ends (pure lt) t l u ≡ ok table
    pub ordered : lt (table u) (table l) ≡ false
    pub shuffled : Shuffle l u t table

  pub sort_ends-EndsSorted : (t : ℕ → V) (l u : ℕ) → l < u → EndsSorted t l u
  unfolding sort_ends sort_comp ◌>>=◌
  sort_ends-EndsSorted t l u h = elim (Bool-cases (lt (t u) (t l))) [
    | inl less ↦ record {
      table = set2 t l u;
      runs = rw less refl;
      ordered =
          subst (λ (x : V). lt x (set2 t l u l) ≡ false) (sym (set2-right t l u))
            (subst (λ (x : V). lt (t l) x ≡ false) (sym (set2-left t l u)) (o.asym _ _ less));
      shuffled = set2-Shuffle l u l u t (omega arith) (omega arith) (omega arith) (omega arith);
    }
    | inr e ↦ record { table = t; runs = rw e refl; ordered = e; shuffled = same-Shuffle l u t }
  ]

  -- Three values in order
  pub record Median (t : ℕ → V) (l u m : ℕ) : Type 0 where
    pub table : ℕ → V
    pub runs : sort_middle (pure lt) t l u m ≡ ok table
    pub low : lt (table m) (table l) ≡ false
    pub high : lt (table u) (table m) ≡ false
    pub shuffled : Shuffle l u t table

  two :
      (t : ℕ → V) (a b : ℕ) (x y : V) → t a ≡ x → t b ≡ y → lt x y ≡ false → lt (t a) (t b) ≡ false
  two t a b x y e f h = rw (e, f) h

  pub sort_middle-Median :
      (t : ℕ → V) (l u m : ℕ) → l < m → m < u → lt (t u) (t l) ≡ false → Median t l u m
  unfolding sort_middle sort_comp ◌>>=◌
  sort_middle-Median t l u m a b h = elim (Bool-cases (lt (t m) (t l))) [
    | inl less ↦ record {
      table = set2 t m l;
      runs = rw less refl;
      low = two (set2 t m l) m l _ _ (set2-left t m l) (set2-right t m l) (o.asym _ _ less);
      high =
          two (set2 t m l) u m _ _ (set2-other t m l u (omega arith) (omega arith))
            (set2-left t m l) h;
      shuffled = set2-Shuffle l u m l t (omega arith) (omega arith) (omega arith) (omega arith);
    }
    | inr e ↦ elim (Bool-cases (lt (t u) (t m))) [
      | inl above ↦ record {
        table = set2 t m u;
        runs = rw (e, above) refl;
        low =
            two (set2 t m u) m l _ _ (set2-left t m u)
              (set2-other t m u l (omega arith) (omega arith)) h;
        high = two (set2 t m u) u m _ _ (set2-right t m u) (set2-left t m u) (o.asym _ _ above);
        shuffled = set2-Shuffle l u m u t (omega arith) (omega arith) (omega arith) (omega arith);
      }
      | inr f ↦ record {
        table = t;
        runs = rw (e, f) refl;
        low = e;
        high = f;
        shuffled = same-Shuffle l u t;
      }
    ]
  ]

  -- The two halves beside the pivot
  pub record Halved (t : ℕ → V) (l u m : ℕ) : Type 0 where
    pub table : ℕ → V
    pub at : ℕ
    pub runs : split (pure lt) t l u m ≡ ok (table, at)
    pub after : l < at
    pub before : at < u
    pub low : AtMost lt table (table at) l (at - 1)
    pub high : AtLeast lt table (table at) (at + 1) u
    pub shuffled : Shuffle l u t table

  module _ (t : ℕ → V) (l u m : ℕ) (a : l < m) (b : m + 1 < u) (low : lt (t m) (t l) ≡ false)
      (high : lt (t u) (t m) ≡ false) where
    hidden : ℕ → V
    hidden = set2 t m (u - 1)

    hidden-Halves : Halves lt hidden l u (t m) l (u - 1)
    unfolding hidden AtMost AtLeast
    hidden-Halves = record {
      first = omega arith;
      order = omega arith;
      room = omega arith;
      low_room = omega arith;
      high_room = omega arith;
      low = λ k x y.
          subst (λ (v : V). lt (t m) v ≡ false)
            (sym (set2-other t m (u - 1) k (omega arith) (omega arith)))
            (subst (λ (n : ℕ). lt (t m) (t n) ≡ false) (omega arith) low);
      high = λ k x y. elim (Bool-cases (k == u)) [
        | inl e ↦
            let here : u ≡ k = ground arith in
            subst (λ (v : V). lt v (t m) ≡ false)
              (sym (set2-other t m (u - 1) k (omega (arith, here)) (omega (arith, here))))
              (subst (λ (n : ℕ). lt (t n) (t m) ≡ false) here high)
        | inr e ↦
            let here : u - 1 ≡ k = ground arith in
            subst (λ (n : ℕ). lt (set2 t m (u - 1) n) (t m) ≡ false) here
              (subst (λ (v : V). lt v (t m) ≡ false) (sym (set2-right t m (u - 1)))
                (irreflexive (t m)))
      ];
      pivot = set2-right t m (u - 1);
    }

    parted : Parted lt (u + 1) hidden l u (t m) l (u - 1)
    parted =
        partition-Parted lt o.asym (u + 1) hidden l u (t m) l (u - 1) hidden-Halves (omega arith)

    placed : ℕ → V
    placed = set2 parted.table (u - 1) parted.at

    placed_pivot : placed parted.at ≡ t m
    unfolding placed
    placed_pivot = set2-right parted.table (u - 1) parted.at ∙ parted.pivot

    placed_high : (k : ℕ) → parted.at + 1 ≤ k → k ≤ u → lt (placed k) (t m) ≡ false
    unfolding placed AtLeast
    placed_high k x y = elim (Bool-cases (k == u - 1)) [
      | inl e ↦
          let here : u - 1 ≡ k = ground arith in
          subst (λ (n : ℕ). lt (set2 parted.table (u - 1) parted.at n) (t m) ≡ false) here
            (subst (λ (v : V). lt v (t m) ≡ false) (sym (set2-left parted.table (u - 1) parted.at))
              (parted.high parted.at (omega arith) (omega (arith, parted.before))))
      | inr e ↦
          subst (λ (v : V). lt v (t m) ≡ false)
            (sym
              (set2-other parted.table (u - 1) parted.at k (ground (arith, e)) (omega (arith, x))))
            (parted.high k (omega (arith, x)) y)
    ]

    pub split-Halved : Halved t l u m
    unfolding split ◌>>=◌ placed hidden AtMost AtLeast
    split-Halved = record {
      table = placed;
      at = parted.at;
      runs = rw (parted.runs) refl;
      after = parted.after;
      before = parted.before;
      low = λ k x y.
          two placed parted.at k (t m) (parted.table k) placed_pivot
            (set2-other parted.table (u - 1) parted.at k
              (omega (arith, parted.after, parted.before, y)) (omega (arith, parted.after, y)))
            (parted.low k x y);
      high = λ k x y. two placed k parted.at _ (t m) refl placed_pivot (placed_high k x y);
      shuffled =
          then-Shuffle
            (set2-Shuffle l u m (u - 1) t (omega arith) (omega arith) (omega arith) (omega arith))
            (then-Shuffle parted.shuffled (
              set2-Shuffle l u (u - 1) parted.at parted.table (omega arith) (omega arith)
                (omega (arith, parted.after)) (omega (arith, parted.before))));
    }

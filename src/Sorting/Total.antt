-- ===== src/Sorting/Total.antt =====
-- `auxsort` (lua-5.1.5/src/ltablib.c) ends and sorts, when the order is one.
use lua_5_1_source_guide.Base.{
  ℕ, zero, suc, ◌+◌, ◌-◌, ◌/◌, ◌≤◌, ◌<◌, ◌≡◌, refl, sym, ◌∙◌, arith, Bool, true, false, ltb, ◌==◌,
  inl, inr, Bool-cases, subst,
}
use lua_5_1_source_guide.Sorting.{ok, ◌>>=◌, auxsort, sort}
use lua_5_1_source_guide.Sorting.Shuffle.{Shuffle, same-Shuffle, then-Shuffle, wider-Shuffle}
use lua_5_1_source_guide.Sorting.Scans.{pure}
use lua_5_1_source_guide.Sorting.Partition.{AtMost, AtLeast}
use lua_5_1_source_guide.Sorting.Pieces.{
  IsOrder, EndsSorted, sort_ends-EndsSorted, Median, sort_middle-Median, Halved, split-Halved,
}
use lua_5_1_source_guide.Sorting.Sorted.{
  IsSorted, SortsTo, short-IsSorted, two-IsSorted, glue, kept, kept-IsSorted, kept-AtMost,
  kept-AtLeast, beside-AtMost, beside-AtLeast,
}

module _ {V : Type 0} (lt : V → V → Bool) (o : IsOrder lt) where
  auxsort_none :
      (rounds : ℕ) (t : ℕ → V) (l u : ℕ) → ltb l u ≡ false → auxsort (pure lt) rounds t l u ≡ ok t
  unfolding auxsort
  auxsort_none zero t l u e = rw e refl
  auxsort_none (suc rounds) t l u e = rw e refl

  none_left : (rounds : ℕ) (t : ℕ → V) (l u : ℕ) → u ≤ l → SortsTo lt o rounds t l u
  none_left rounds t l u h = record {
    table = t;
    runs = auxsort_none rounds t l u (ground arith);
    sorted = short-IsSorted lt o t l u h;
    shuffled = same-Shuffle l u t;
  }

  -- Both halves sorted, the lower one first or the upper one
  module _ (l u at : ℕ) (s a b : ℕ → V) (after : l < at) (before : at < u)
      (low : AtMost lt s (s at) l (at - 1)) (high : AtLeast lt s (s at) (at + 1) u) where
    low_high :
        (x : Shuffle l (at - 1) s a)
        → (y : Shuffle (at + 1) u a b) → IsSorted lt a l (at - 1)
        → IsSorted lt b (at + 1) u
        → IsSorted lt b l u
    low_high x y i j =
        glue lt o b l u at (s at)
          (kept lt o (at + 1) u a b y at (inl (omega arith))
            ∙ kept lt o l (at - 1) s a x at (inr (omega arith)))
          (beside-AtMost lt o (at + 1) u a b y (s at) l (at - 1) (inl (omega arith))
            (kept-AtMost lt o l (at - 1) s a x (s at) low))
          (kept-AtLeast lt o (at + 1) u a b y (s at)
            (beside-AtLeast lt o l (at - 1) s a x (s at) (at + 1) u (inr (omega arith)) high))
          (kept-IsSorted lt o (at + 1) u a b y l (at - 1) (inl (omega arith)) i) j

    high_low :
        (x : Shuffle (at + 1) u s a)
        → (y : Shuffle l (at - 1) a b) → IsSorted lt a (at + 1) u
        → IsSorted lt b l (at - 1)
        → IsSorted lt b l u
    high_low x y i j =
        glue lt o b l u at (s at)
          (kept lt o l (at - 1) a b y at (inr (omega arith))
            ∙ kept lt o (at + 1) u s a x at (inl (omega arith)))
          (kept-AtMost lt o l (at - 1) a b y (s at)
            (beside-AtMost lt o (at + 1) u s a x (s at) l (at - 1) (inl (omega arith)) low))
          (beside-AtLeast lt o l (at - 1) a b y (s at) (at + 1) u (inr (omega arith))
            (kept-AtLeast lt o (at + 1) u s a x (s at) high))
          j (kept-IsSorted lt o l (at - 1) a b y (at + 1) u (inr (omega arith)) i)

  module _ (rounds : ℕ) (t : ℕ → V) (l u : ℕ) (inside : ltb l u ≡ true)
      (e : EndsSorted lt o t l u) where
    pair : (u - l == 1) ≡ true → SortsTo lt o (suc rounds) t l u
    unfolding auxsort ◌>>=◌
    pair one =
        let next : l + 1 ≡ u = ground arith in
        record {
          table = e.table;
          runs = rw (inside, e.runs, one) refl;
          sorted = subst (IsSorted lt e.table l) next (
              two-IsSorted lt o e.table l
                (subst (λ (n : ℕ). lt (e.table n) (e.table l) ≡ false) (sym next) e.ordered));
          shuffled = e.shuffled;
        }

    module _ (more : (u - l == 1) ≡ false) (m : Median lt o e.table l u ((l + u) / 2)) where
      middle_low : (u - l == 2) ≡ true → AtMost lt m.table (m.table (l + 1)) l (l + 1 - 1)
      unfolding AtMost
      middle_low two k x y =
          let mid : (l + u) / 2 ≡ l + 1 = ground arith in
          subst (λ (n : ℕ). lt (m.table (l + 1)) (m.table n) ≡ false) (omega arith)
            (subst (λ (n : ℕ). lt (m.table n) (m.table l) ≡ false) mid m.low)

      middle_high : (u - l == 2) ≡ true → AtLeast lt m.table (m.table (l + 1)) (l + 1 + 1) u
      unfolding AtLeast
      middle_high two k x y =
          let mid : (l + u) / 2 ≡ l + 1 = ground arith in
          let last : u ≡ k = ground (arith, x, y) in
          subst (λ (n : ℕ). lt (m.table n) (m.table (l + 1)) ≡ false) last
            (subst (λ (n : ℕ). lt (m.table u) (m.table n) ≡ false) mid m.high)

      three : (u - l == 2) ≡ true → SortsTo lt o (suc rounds) t l u
      unfolding auxsort ◌>>=◌
      three two = record {
        table = m.table;
        runs = rw (inside, e.runs, more, m.runs, two) refl;
        sorted =
            glue lt o m.table l u (l + 1) (m.table (l + 1)) refl (middle_low two) (middle_high two)
              (short-IsSorted lt o m.table l (l + 1 - 1) (omega arith))
              (short-IsSorted lt o m.table (l + 1 + 1) u (ground arith));
        shuffled = then-Shuffle e.shuffled m.shuffled;
      }

      module _ (many : (u - l == 2) ≡ false) (s : Halved lt o m.table l u ((l + u) / 2)) where
        whole : {r : ℕ → V} → Shuffle l u s.table r → Shuffle l u t r
        whole r = then-Shuffle e.shuffled (then-Shuffle m.shuffled (then-Shuffle s.shuffled r))

        low_first :
            ltb (s.at + s.at) (l + u) ≡ true
            → (a : SortsTo lt o rounds s.table l (s.at - 1))
            → SortsTo lt o rounds a.table (s.at + 1) u
            → SortsTo lt o (suc rounds) t l u
        unfolding auxsort ◌>>=◌
        low_first smaller a b = record {
          table = b.table;
          runs = rw (inside, e.runs, more, m.runs, many, s.runs, smaller, a.runs) b.runs;
          sorted =
              low_high l u s.at s.table a.table b.table s.after s.before s.low s.high a.shuffled
                b.shuffled a.sorted b.sorted;
          shuffled = whole (
              then-Shuffle
                (wider-Shuffle l u l (s.at - 1) _ _ (omega arith) (omega (arith, s.before))
                  a.shuffled)
                (wider-Shuffle l u (s.at + 1) u _ _ (omega (arith, s.after)) (omega arith)
                  b.shuffled));
        }

        high_first :
            ltb (s.at + s.at) (l + u) ≡ false
            → (a : SortsTo lt o rounds s.table (s.at + 1) u)
            → SortsTo lt o rounds a.table l (s.at - 1)
            → SortsTo lt o (suc rounds) t l u
        unfolding auxsort ◌>>=◌
        high_first larger a b = record {
          table = b.table;
          runs = rw (inside, e.runs, more, m.runs, many, s.runs, larger, a.runs) b.runs;
          sorted =
              high_low l u s.at s.table a.table b.table s.after s.before s.low s.high a.shuffled
                b.shuffled a.sorted b.sorted;
          shuffled = whole (
              then-Shuffle
                (wider-Shuffle l u (s.at + 1) u _ _ (omega (arith, s.after)) (omega arith)
                  a.shuffled)
                (wider-Shuffle l u l (s.at - 1) _ _ (omega arith) (omega (arith, s.before))
                  b.shuffled));
        }

  -- When the order is a strict weak order that raises no error, `auxsort` ends within as many calls as
  -- there are elements, without "invalid order function", and leaves in the places `l` to `u` the same
  -- values in order, and every other place of the table as it was.
  pub auxsort-SortsTo :
      (rounds : ℕ) (t : ℕ → V) (l u : ℕ) → u ≤ l + rounds → SortsTo lt o rounds t l u
  auxsort-SortsTo zero t l u h = none_left zero t l u (omega arith)
  auxsort-SortsTo (suc rounds) t l u h = elim (Bool-cases (ltb l u)) [
    | inr outside ↦ none_left (suc rounds) t l u (ground (arith, outside))
    | inl inside ↦
        let e = sort_ends-EndsSorted lt o t l u (ground (arith, inside)) in
        elim (Bool-cases (u - l == 1)) [
          | inl one ↦ pair rounds t l u inside e one
          | inr more ↦
              let m =
                sort_middle-Median lt o e.table l u ((l + u) / 2) (ground (arith, inside, more))
                  (ground (arith, inside, more)) e.ordered in
              elim (Bool-cases (u - l == 2)) [
                | inl two ↦ three rounds t l u inside e more m two
                | inr many ↦
                    let s =
                      split-Halved lt o m.table l u ((l + u) / 2) (ground (arith, inside, more))
                        (ground (arith, inside, more, many)) m.low m.high in
                    elim (Bool-cases (ltb (s.at + s.at) (l + u))) [
                      | inl smaller ↦
                          let a =
                            auxsort-SortsTo rounds s.table l (s.at - 1)
                              (omega (arith, s.before, h)) in
                          low_first rounds t l u inside e more m many s smaller a (
                            auxsort-SortsTo rounds a.table (s.at + 1) u (omega (arith, s.after, h)))
                      | inr larger ↦
                          let a =
                            auxsort-SortsTo rounds s.table (s.at + 1) u
                              (omega (arith, s.after, h)) in
                          high_first rounds t l u inside e more m many s larger a (
                            auxsort-SortsTo rounds a.table l (s.at - 1)
                              (omega (arith, s.before, h)))
                    ]
              ]
        ]
  ]

  -- When the order is a strict weak order that raises no error, `table.sort` ends without "invalid order
  -- function" and leaves the values of places 1 to `n` there in order, each as often as it was, and
  -- every other place of the table as it was.
  pub sort-IsSorted :
      (t : ℕ → V) (n : ℕ)
      → (table : ℕ → V) × (sort (pure lt) t n ≡ ok table)
        × IsSorted lt table 1 n
        × Shuffle 1 n t table
  unfolding sort
  sort-IsSorted t n =
      let r = auxsort-SortsTo n t 1 n (omega arith) in (r.table, r.runs, r.sorted, r.shuffled)

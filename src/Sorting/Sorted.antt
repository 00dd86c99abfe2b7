-- ===== src/Sorting/Sorted.antt =====
-- `auxsort` (lua-5.1.5/src/ltablib.c) sorts, when the order is one.
use lua_5_1_source_guide.Base.{
  ℕ, ◌+◌, ◌-◌, ◌≤◌, ◌<◌, ◌≡◌, ◌⊎◌, sym, ap, ◌∙◌, arith, Bool, false, ltb, ◌==◌, inl, inr,
  Bool-cases, subst,
}
use lua_5_1_source_guide.Sorting.{ok, auxsort}
use lua_5_1_source_guide.Sorting.Shuffle.{Shuffle}
use lua_5_1_source_guide.Sorting.Scans.{pure}
use lua_5_1_source_guide.Sorting.Partition.{AtMost, AtLeast}
use lua_5_1_source_guide.Sorting.Pieces.{IsOrder, irreflexive, at_most_trans}

-- From `l` to `u` no value is below an earlier one.
unfoldable pub IsSorted : {V : Type 0} → (V → V → Bool) → (ℕ → V) → ℕ → ℕ → Type 0
IsSorted lt t l u = (a b : ℕ) → l ≤ a → a ≤ b → b ≤ u → lt (t b) (t a) ≡ false

apart : (l u a b k : ℕ) → (b < l) ⊎ (u < a) → a ≤ k → k ≤ b → (k < l) ⊎ (u < k)
apart l u a b k (inl h) x y = inl (omega arith)
apart l u a b k (inr h) x y = inr (omega arith)

module _ {V : Type 0} (lt : V → V → Bool) (o : IsOrder lt) where
  module _ (l u : ℕ) (s t : ℕ → V) (r : Shuffle l u s t) where
    pub kept : (k : ℕ) → (k < l) ⊎ (u < k) → t k ≡ s k
    kept k h = r.reads k ∙ ap s (r.outside k h)

    pub kept-IsSorted : (a b : ℕ) → (b < l) ⊎ (u < a) → IsSorted lt s a b → IsSorted lt t a b
    unfolding IsSorted
    kept-IsSorted a b h sorted x y p q z =
        rw
          (
            kept x (apart l u a b x h p (omega (arith, q, z))),
            kept y (apart l u a b y h (omega (arith, p, q)) z),
          )
          (sorted x y p q z)

    pub kept-AtMost : (p : V) → AtMost lt s p l u → AtMost lt t p l u
    unfolding AtMost
    kept-AtMost p h k x y =
        let (i, j) = r.inside k x y in
        subst (λ (v : V). lt p v ≡ false) (sym (r.reads k)) (h (r.to k) i j)

    pub kept-AtLeast : (p : V) → AtLeast lt s p l u → AtLeast lt t p l u
    unfolding AtLeast
    kept-AtLeast p h k x y =
        let (i, j) = r.inside k x y in
        subst (λ (v : V). lt v p ≡ false) (sym (r.reads k)) (h (r.to k) i j)

    pub beside-AtMost :
        (p : V) (a b : ℕ) → (b < l) ⊎ (u < a) → AtMost lt s p a b → AtMost lt t p a b
    unfolding AtMost
    beside-AtMost p a b h f k x y =
        subst (λ (v : V). lt p v ≡ false) (sym (kept k (apart l u a b k h x y))) (f k x y)

    pub beside-AtLeast :
        (p : V) (a b : ℕ) → (b < l) ⊎ (u < a) → AtLeast lt s p a b → AtLeast lt t p a b
    unfolding AtLeast
    beside-AtLeast p a b h f k x y =
        subst (λ (v : V). lt v p ≡ false) (sym (kept k (apart l u a b k h x y))) (f k x y)

  pub glue :
      (t : ℕ → V) (l u at : ℕ) (p : V)
      → t at ≡ p
      → AtMost lt t p l (at - 1)
      → AtLeast lt t p (at + 1) u
      → IsSorted lt t l (at - 1)
      → IsSorted lt t (at + 1) u
      → IsSorted lt t l u
  unfolding IsSorted AtMost AtLeast
  glue t l u at p e low high left right a b x y z = elim (Bool-cases (ltb b at)) [
    | inl before ↦ left a b x y (ground (arith, before))
    | inr past ↦ elim (Bool-cases (ltb at a)) [
      | inl after ↦ right a b (ground (arith, after)) y z
      | inr upto ↦
          at_most_trans lt o (t a) p (t b) (below x (ground (arith, upto)))
            (above (ground (arith, past)) z)
    ]
  ]
    where
      below : l ≤ a → a ≤ at → lt p (t a) ≡ false
      below x y = elim (Bool-cases (a == at)) [
        | inl same ↦
            let here : at ≡ a = ground arith in
            subst (λ (v : V). lt p v ≡ false) (sym e ∙ ap t here) (irreflexive lt o p)
        | inr other ↦ low a x (ground (arith, other, y))
      ]

      above : at ≤ b → b ≤ u → lt (t b) p ≡ false
      above x y = elim (Bool-cases (b == at)) [
        | inl same ↦
            let here : at ≡ b = ground arith in
            subst (λ (v : V). lt v p ≡ false) (sym e ∙ ap t here) (irreflexive lt o p)
        | inr other ↦ high b (ground (arith, other, x)) y
      ]

  pub short-IsSorted : (t : ℕ → V) (l u : ℕ) → u ≤ l → IsSorted lt t l u
  unfolding IsSorted
  short-IsSorted t l u h a b x y z =
      let same : a ≡ b = omega arith in
      subst (λ (n : ℕ). lt (t b) (t n) ≡ false) (sym same) (irreflexive lt o (t b))

  pub record SortsTo (rounds : ℕ) (t : ℕ → V) (l u : ℕ) : Type 0 where
    pub table : ℕ → V
    pub runs : auxsort (pure lt) rounds t l u ≡ ok table
    pub sorted : IsSorted lt table l u
    pub shuffled : Shuffle l u t table

  pub two-IsSorted : (t : ℕ → V) (l : ℕ) → lt (t (l + 1)) (t l) ≡ false → IsSorted lt t l (l + 1)
  unfolding IsSorted
  two-IsSorted t l h a b x y z = elim (Bool-cases (a == b)) [
    | inl e ↦
        let same : b ≡ a = ground arith in
        subst (λ (n : ℕ). lt (t b) (t n) ≡ false) same (irreflexive lt o (t b))
    | inr e ↦
        let first : l ≡ a = ground (arith, e) in
        let last : l + 1 ≡ b = ground (arith, e) in
        subst (λ (n : ℕ). lt (t b) (t n) ≡ false) first
          (subst (λ (n : ℕ). lt (t n) (t l) ≡ false) last h)
  ]

-- ===== src/Sorting/Shuffle.antt =====
-- Rearrangements of a part of a table, as `set2` (lua-5.1.5/src/ltablib.c) makes them.
use lua_5_1_source_guide.Base.{
  ℕ, ◌≤◌, ◌<◌, ◌≡◌, ◌≢◌, ◌⊎◌, refl, ap, ◌∙◌, arith, true, false, ltb, ◌==◌, if◌then◌else◌, inl, inr,
  Bool-cases,
}
use lua_5_1_source_guide.Sorting.{set2}

-- `new` holds the values of `old`, the ones at `l` to `u` in another order.
pub record Shuffle {V : Type 0} (l u : ℕ) (old new : ℕ → V) : Type 0 where
  pub to : ℕ → ℕ
  pub from : ℕ → ℕ
  pub to_from : (k : ℕ) → to (from k) ≡ k
  pub from_to : (k : ℕ) → from (to k) ≡ k
  pub inside : (k : ℕ) → l ≤ k → k ≤ u → (l ≤ to k) × (to k ≤ u)
  pub outside : (k : ℕ) → (k < l) ⊎ (u < k) → to k ≡ k
  pub reads : (k : ℕ) → new k ≡ old (to k)

abbrev exchange : ℕ → ℕ → ℕ → ℕ
exchange i j k = if k == i then j else if k == j then i else k

where_is : (a b k : ℕ) → ((k < a) ⊎ (b < k)) ⊎ ((a ≤ k) × (k ≤ b))
where_is a b k = elim (Bool-cases (ltb k a)) [
  | inl below ↦ inl (inl (ground arith))
  | inr h ↦ elim (Bool-cases (ltb b k)) [
    | inl above ↦ inl (inr (ground arith))
    | inr g ↦ inr (ground (arith, h), ground (arith, g))
  ]
]

module _ {V : Type 0} where
  pub same-Shuffle : (l u : ℕ) (t : ℕ → V) → Shuffle l u t t
  same-Shuffle l u t = record {
    to = λ k. k;
    from = λ k. k;
    to_from = λ k. refl;
    from_to = λ k. refl;
    inside = λ k a b. (a, b);
    outside = λ k h. refl;
    reads = λ k. refl;
  }

  pub then-Shuffle : {l u : ℕ} {r s t : ℕ → V} → Shuffle l u r s → Shuffle l u s t → Shuffle l u r t
  then-Shuffle {l = l} {u = u} a b = record {
    to = λ k. a.to (b.to k);
    from = λ k. b.from (a.from k);
    to_from = λ k. ap a.to (b.to_from (a.from k)) ∙ a.to_from k;
    from_to = λ k. ap b.from (a.from_to (b.to k)) ∙ b.from_to k;
    inside = λ k x y. let (p, q) = b.inside k x y in a.inside (b.to k) p q;
    outside = λ k h. ap a.to (b.outside k h) ∙ a.outside k h;
    reads = λ k. b.reads k ∙ a.reads (b.to k);
  }

  -- A rearrangement of a part is one of the whole.
  pub wider-Shuffle :
      (l u a b : ℕ) (s t : ℕ → V) → l ≤ a → b ≤ u → Shuffle a b s t → Shuffle l u s t
  wider-Shuffle l u a b s t la bu r = record {
    to = r.to;
    from = r.from;
    to_from = r.to_from;
    from_to = r.from_to;
    reads = r.reads;
    inside = λ k x y. elim (where_is a b k) [
      | inl out ↦ let stays = r.outside k out in omega (arith, stays, x, y)
      | inr (p, q) ↦ let within = r.inside k p q in omega (arith, within, la, bu)
    ];
    outside = λ k h. r.outside k (elim h [
      | inl below ↦ inl (omega (arith, below, la))
      | inr above ↦ inr (omega (arith, above, bu))
    ]);
  }

  pub set2-left : (t : ℕ → V) (i j : ℕ) → set2 t i j i ≡ t j
  unfolding set2
  set2-left t i j = let same : (i == i) ≡ true = ground arith in rw same refl

  pub set2-right : (t : ℕ → V) (i j : ℕ) → set2 t i j j ≡ t i
  unfolding set2
  set2-right t i j =
      let same : (j == j) ≡ true = ground arith in
      elim (Bool-cases (j == i)) [
        | inl e ↦ let eq : j ≡ i = ground arith in rw e (ap t eq)
        | inr e ↦ rw (e, same) refl
      ]

  pub set2-other : (t : ℕ → V) (i j k : ℕ) → k ≢ i → k ≢ j → set2 t i j k ≡ t k
  unfolding set2
  set2-other t i j k a b =
      let e : (k == i) ≡ false = ground arith in
      let f : (k == j) ≡ false = ground arith in rw (e, f) refl

  set2-reads : (t : ℕ → V) (i j k : ℕ) → set2 t i j k ≡ t (exchange i j k)
  unfolding set2
  set2-reads t i j k = elim (Bool-cases (k == i)) [
    | inl a ↦ rw a refl
    | inr a ↦ elim (Bool-cases (k == j)) [ inl b ↦ rw (a, b) refl | inr b ↦ rw (a, b) refl ]
  ]

  pub set2-Shuffle :
      (l u i j : ℕ) (t : ℕ → V) → l ≤ i → i ≤ u → l ≤ j → j ≤ u → Shuffle l u t (set2 t i j)
  set2-Shuffle l u i j t a b c d = record {
    to = exchange i j;
    from = exchange i j;
    to_from = λ k. ground arith;
    from_to = λ k. ground arith;
    inside = λ k x y. ground arith;
    outside = λ k h. ground arith;
    reads = λ k. set2-reads t i j k;
  }

-- ===== src/Sorting/Scans.antt =====
-- The two scans of `auxsort` (lua-5.1.5/src/ltablib.c) with an order that never fails.
use lua_5_1_source_guide.Base.{
  ℕ, zero, suc, ◌+◌, ◌-◌, ◌≤◌, ◌<◌, ◌≡◌, ◌≢◌, refl, sym, arith, Bool, true, false, Option, some,
  ltb, ◌==◌, inl, inr, Bool-cases, subst,
}
use lua_5_1_source_guide.Sorting.{ok, ◌>>=◌, sort_comp, scan_up, scan_down}

module _ {V : Type 0} (lt : V → V → Bool) where
  abbrev pub pure : V → V → Option Bool
  pure a b = some (lt a b)

  -- Where `++i` stops
  pub record Up (rounds : ℕ) (t : ℕ → V) (u : ℕ) (p : V) (i stop : ℕ) : Type 0 where
    pub at : ℕ
    pub runs : scan_up pure rounds t u p i ≡ ok at
    pub above : i < at
    pub below : at ≤ stop
    pub stays : lt (t at) p ≡ false
    pub passed : (k : ℕ) → i < k → k < at → lt (t k) p ≡ true

  pub scan_up-Up :
      (rounds : ℕ) (t : ℕ → V) (u : ℕ) (p : V) (i stop : ℕ)
      → i < stop
      → stop ≤ u
      → lt (t stop) p ≡ false
      → stop ≤ i + rounds
      → Up rounds t u p i stop
  unfolding scan_up sort_comp ◌>>=◌
  scan_up-Up zero t u p i stop a b c d = absurd (omega arith)
  scan_up-Up (suc rounds) t u p i stop a b c d = elim (Bool-cases (lt (t (i + 1)) p)) [
    | inr stays ↦ record {
      at = i + 1;
      runs = rw stays refl;
      above = omega arith;
      below = omega arith;
      stays = stays;
      passed = λ k x y. absurd (omega arith);
    }
    | inl less ↦
        let ne : i + 1 ≢ stop = λ e. cc in
        let r = scan_up-Up rounds t u p (i + 1) stop (omega (arith, ne)) b c (omega arith) in
        let within : ltb u (i + 1) ≡ false = ground arith in
        record {
          at = r.at;
          runs = rw (less, within) r.runs;
          above = omega (arith, r.above);
          below = r.below;
          stays = r.stays;
          passed = λ k x y. elim (Bool-cases (k == i + 1)) [
            | inl e ↦
                let here : k ≡ i + 1 = ground arith in
                subst (λ (n : ℕ). lt (t n) p ≡ true) (sym here) less
            | inr e ↦ r.passed k (ground arith) y
          ];
        }
  ]

  -- Where `--j` stops
  pub record Down (rounds : ℕ) (t : ℕ → V) (l : ℕ) (p : V) (j stop : ℕ) : Type 0 where
    pub at : ℕ
    pub runs : scan_down pure rounds t l p j ≡ ok at
    pub below : at < j
    pub above : stop ≤ at
    pub stays : lt p (t at) ≡ false
    pub passed : (k : ℕ) → at < k → k < j → lt p (t k) ≡ true

  pub scan_down-Down :
      (rounds : ℕ) (t : ℕ → V) (l : ℕ) (p : V) (j stop : ℕ)
      → stop < j
      → l ≤ stop
      → lt p (t stop) ≡ false
      → j ≤ stop + rounds
      → Down rounds t l p j stop
  unfolding scan_down sort_comp ◌>>=◌
  scan_down-Down zero t l p j stop a b c d = absurd (omega arith)
  scan_down-Down (suc rounds) t l p j stop a b c d = elim (Bool-cases (lt p (t (j - 1)))) [
    | inr stays ↦ record {
      at = j - 1;
      runs = rw stays refl;
      below = omega arith;
      above = omega arith;
      stays = stays;
      passed = λ k x y. absurd (omega arith);
    }
    | inl less ↦
        let ne : j - 1 ≢ stop = λ e. cc in
        let r = scan_down-Down rounds t l p (j - 1) stop (omega (arith, ne)) b c (omega arith) in
        let within : ltb (j - 1) l ≡ false = ground arith in
        record {
          at = r.at;
          runs = rw (less, within) r.runs;
          below = omega (arith, r.below);
          above = r.above;
          stays = r.stays;
          passed = λ k x y. elim (Bool-cases (k == j - 1)) [
            | inl e ↦
                let here : k ≡ j - 1 = ground arith in
                subst (λ (n : ℕ). lt p (t n) ≡ true) (sym here) less
            | inr e ↦ r.passed k x (ground arith)
          ];
        }
  ]

-- ===== src/Pattern/Bounds.antt =====
-- The loops of `match` (lua-5.1.5/src/lstrlib.c) end and stay within the subject and the pattern.
use lua_5_1_source_guide.Base.{
  ℕ, zero, suc, ◌+◌, ◌-◌, ◌≤◌, ◌<◌, ◌≡◌, ◌≢◌, arith, List, some, true, length, get_or_past,
  Bool-cases, inl, inr,
}
use lua_5_1_source_guide.Pattern.State.{
  Ctype, Capture, MatchState, Outcome, is_unfinished, close_below, ok, stuck,
}
use lua_5_1_source_guide.Pattern.Items.{p_at, bracket_end, class_end}
use lua_5_1_source_guide.Pattern.Engine.{
  balance_loop, count_max, matches_here, try_down, max_expand, min_loop,
}
use lua_5_1_source_guide.Pattern.Captures.{
  IsValid, IsValid-later, IsValid-Same, Fits, Fits-earlier, Fits-Same, Fits-or_try,
}

pub close_below_fits :
    (c : ℕ → Capture) (level l : ℕ)
    → close_below c level ≡ ok l
    → (l < level) × (is_unfinished (c l).len ≡ true)
unfolding close_below
close_below_fits c zero l e = absurd cc
close_below_fits c (suc level) l e = ground (arith, close_below_fits c level l)

pub close_below-ne-stuck : (c : ℕ → Capture) (level : ℕ) → close_below c level ≢ stuck
unfolding close_below
close_below-ne-stuck c zero e = cc
close_below-ne-stuck c (suc level) e = ground (arith, close_below-ne-stuck c level)

module _ (pattern : List ℕ) where
  pub past_end : (i : ℕ) → length pattern ≤ i → p_at pattern i ≡ 0
  past_end i h = get_or_past pattern i 0 h

  bracket_end_later : (rounds p ep : ℕ) → bracket_end pattern rounds p ≡ ok ep → p < ep
  unfolding bracket_end
  bracket_end_later zero p ep e = absurd cc
  bracket_end_later (suc rounds) p ep e =
      ground (arith, bracket_end_later rounds (p + 1) ep, bracket_end_later rounds (p + 2) ep)

  bracket_end-ne-stuck :
      (rounds p : ℕ)
      → p ≤ length pattern
      → length pattern < p + rounds
      → bracket_end pattern rounds p ≢ stuck
  unfolding bracket_end
  bracket_end-ne-stuck zero p k h e = absurd (omega arith)
  bracket_end-ne-stuck (suc rounds) p k h e = ground (
    arith,
    past_end p,
    past_end (p + 1),
    bracket_end-ne-stuck rounds (p + 1),
    bracket_end-ne-stuck rounds (p + 2),
  )

  pub class_end_later : (p ep : ℕ) → class_end pattern p ≡ ok ep → p < ep
  unfolding class_end
  class_end_later p ep e = ground (
    arith,
    bracket_end_later (suc (length pattern)) (p + 1) ep,
    bracket_end_later (suc (length pattern)) (p + 2) ep,
  )

  pub class_end-ne-stuck : (p : ℕ) → class_end pattern p ≢ stuck
  unfolding class_end
  class_end-ne-stuck p e = ground (
    arith,
    past_end p,
    past_end (p + 1),
    bracket_end-ne-stuck (suc (length pattern)) (p + 1),
    bracket_end-ne-stuck (suc (length pattern)) (p + 2),
  )

module _ (c : Ctype) (src pattern : List ℕ) where
  pub balance_loop_fits :
      (rounds s b e cont r : ℕ)
      → balance_loop c src pattern rounds s b e cont ≡ some r
      → (s ≤ r) × (r ≤ length src)
  unfolding balance_loop
  balance_loop_fits zero s b e cont r h = absurd cc
  balance_loop_fits (suc rounds) s b e cont r h = ground (
    arith,
    balance_loop_fits rounds (s + 1) b e cont r,
    balance_loop_fits rounds (s + 1) b e (cont + 1) r,
    balance_loop_fits rounds (s + 1) b e (cont - 1) r,
  )

  count_max_fits :
      (rounds s p ep : ℕ) → s ≤ length src → s + count_max c src pattern rounds s p ep ≤ length src
  unfolding count_max
  count_max_fits zero s p ep h = omega arith
  count_max_fits (suc rounds) s p ep h = ground (arith, count_max_fits rounds (s + 1) p ep)

  -- What the recursive calls promise: from `floor` on in the pattern they fit.
  module _ (rec : MatchState → ℕ → ℕ → Outcome) (floor : ℕ)
      (rec_fits : (ms : MatchState) (s p : ℕ)
        → IsValid ms s
        → s ≤ length src
        → floor ≤ p
        → Fits (length src) ms s (rec ms s p)) where
    try_down-Fits :
        (i : ℕ) (ms : MatchState) (s ep : ℕ)
        → IsValid ms s
        → s + i ≤ length src
        → floor ≤ ep + 1
        → Fits (length src) ms s (try_down c src pattern rec i ms s ep)
    unfolding try_down
    try_down-Fits zero ms s ep v h k = rec_fits ms s (ep + 1) v (omega arith) k
    try_down-Fits (suc i) ms s ep v h k =
        Fits-or_try (length src) ms s _ _
          (Fits-earlier (length src) ms s (s + suc i) _ (omega arith)
            (rec_fits ms (s + suc i) (ep + 1) (IsValid-later ms s (s + suc i) (omega arith) v) h k))
          (λ ms' same.
            Fits-Same (length src) ms ms' s _ same
              (try_down-Fits i ms' s ep (IsValid-Same ms ms' s same v) (omega arith) k))

    pub max_expand-Fits :
        (ms : MatchState) (s p ep : ℕ)
        → IsValid ms s
        → s ≤ length src
        → floor ≤ ep + 1
        → Fits (length src) ms s (max_expand c src pattern rec ms s p ep)
    unfolding max_expand
    max_expand-Fits ms s p ep v h k = try_down-Fits _ ms s ep v (count_max_fits _ s p ep h) k

    pub min_loop-Fits :
        (rounds : ℕ) (ms : MatchState) (s p ep : ℕ)
        → IsValid ms s
        → s ≤ length src
        → floor ≤ ep + 1
        → Fits (length src) ms s (min_loop c src pattern rec rounds ms s p ep)
    unfolding min_loop
    min_loop-Fits zero ms s p ep v h k = rec_fits ms s (ep + 1) v h k
    min_loop-Fits (suc rounds) ms s p ep v h k =
        Fits-or_try (length src) ms s _ _ (rec_fits ms s (ep + 1) v h k) λ ms' same.
          elim (Bool-cases (matches_here c src pattern s p ep)) [
            | inl yes_here ↦ rw yes_here (
                Fits-Same (length src) ms ms' s _ same (
                  Fits-earlier (length src) ms' s (s + 1) _ (omega arith) (
                    min_loop-Fits rounds ms' (s + 1) p ep
                      (IsValid-later ms' s (s + 1) (omega arith) (IsValid-Same ms ms' s same v))
                      (ground arith) k)))
            | inr not_here ↦ rw not_here same
          ]

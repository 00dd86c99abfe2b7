-- ===== src/Pattern/Match.antt =====
-- `match` (lua-5.1.5/src/lstrlib.c) as a whole: every branch of its `switch` keeps the promise of
-- Pattern/Captures, so it holds for the recursion.
use lua_5_1_source_guide.Base.{
  ℕ, zero, suc, ◌+◌, ◌-◌, ◌≤◌, ◌<◌, ◌≡◌, ◌≢◌, refl, ap, ◌∙◌, subst, arith, List, Option, none, some,
  true, not, ◌||◌, leb, ◌==◌, if◌then◌else◌, length, Bool-cases, inl, inr,
}
use lua_5_1_source_guide.Pattern.State.{
  Ctype, Extent, MatchState, max_captures, Run, ◌>>=◌, Outcome, or_try, esc, check_capture,
  close_below, capture_to_close, unfinished, position, size, ok, err, stuck,
}
use lua_5_1_source_guide.Pattern.Items.{p_at, class_end, match_bracket_class}
use lua_5_1_source_guide.Pattern.Engine.{
  s_at, match_balance, matches_here, same_text, match_capture, max_expand, min_expand,
  start_capture, close_at, end_capture, match_item, match_default, go_on, match_frontier,
  match_open, match_escape, match_dollar, match_step, match_rounds, do_match,
}
use lua_5_1_source_guide.Pattern.Captures.{
  ExtentFits, IsValid, Fits, CaptureFits, IsValid-later, Same-refl, IsValid-Same, Fits-earlier,
  Fits-Same, Fits-or_try, put-IsValid, unfinished_extent, Begins-refl, Fits-begun, Fits-closed,
}
use lua_5_1_source_guide.Pattern.Bounds.{
  close_below_fits, close_below-ne-stuck, past_end, class_end_later, class_end-ne-stuck,
  balance_loop_fits, max_expand-Fits, min_loop-Fits,
}

bind-Fits :
    {A : Type 0} (end : ℕ) (ms : MatchState) (s : ℕ) (m : Run A) (f : A → Outcome)
    → m ≢ stuck
    → ((a : A) → m ≡ ok a → Fits end ms s (f a))
    → Fits end ms s (m >>= f)
bind-Fits end ms s (ok a) f h k = k a refl
bind-Fits end ms s (err e) f h k = tt
bind-Fits end ms s stuck f h k = h refl

module _ (c : Ctype) (src pattern : List ℕ) (rec : MatchState → ℕ → ℕ → Outcome) (floor : ℕ)
    (rec_fits : (ms : MatchState) (s p : ℕ)
      → IsValid ms s
      → s ≤ length src
      → floor ≤ p
      → Fits (length src) ms s (rec ms s p)) where
  abbrev Good : MatchState → ℕ → Outcome → Type 0
  Good ms s r = Fits (length src) ms s r

  start_capture-Fits :
      (ms : MatchState) (s p : ℕ) (what : Extent)
      → CaptureFits (record { init = s; len = what }) s
      → IsValid ms s
      → s ≤ length src
      → floor ≤ p
      → Good ms s (start_capture c src pattern rec ms s p what)
  unfolding start_capture
  start_capture-Fits ms s p what k v h q = elim (Bool-cases (leb max_captures ms.level)) [
    | inl full ↦ rw full tt
    | inr room ↦ rw room (
        Fits-begun (length src) ms s (record { init = s; len = what }) _ (omega arith)
          (rec_fits _ s p (put-IsValid ms ms.level (ms.level + 1) s _ v (omega arith) (inl refl) k)
            h q))
  ]

  close_at-Fits :
      (l : ℕ) (ms : MatchState) (s p : ℕ)
      → l < ms.level
      → (ms.capture l).len ≡ unfinished
      → IsValid ms s
      → s ≤ length src
      → floor ≤ p
      → Good ms s (close_at c src pattern rec l ms s p)
  unfolding close_at
  close_at-Fits l ms s p k u v h q =
      let before : (ms.capture l).init ≤ s =
        subst (λ (x : Extent). ExtentFits (ms.capture l).init x s) u (v l k) in
      Fits-closed (length src) ms s l (s - (ms.capture l).init) _ k u (
        rec_fits _ s p (put-IsValid ms l ms.level s _ v (omega arith) (inr refl) (omega arith)) h q)

  end_capture-Fits :
      (ms : MatchState) (s p : ℕ)
      → IsValid ms s
      → s ≤ length src
      → floor ≤ p
      → Good ms s (end_capture c src pattern rec ms s p)
  unfolding end_capture capture_to_close
  end_capture-Fits ms s p v h q =
      bind-Fits (length src) ms s (close_below ms.capture ms.level) _
        (close_below-ne-stuck ms.capture ms.level)
        λ l e.
          let (below, open_one) = close_below_fits ms.capture ms.level l e in
          close_at-Fits l ms s p below (unfinished_extent _ open_one) v h q

  go_on-Fits :
      (ms : MatchState) (s p : ℕ) (r : Option ℕ)
      → ((t : ℕ) → r ≡ some t → (s ≤ t) × (t ≤ length src))
      → IsValid ms s
      → floor ≤ p
      → Good ms s (go_on c src pattern rec ms p r)
  unfolding go_on
  go_on-Fits ms s p none k v q = Same-refl ms
  go_on-Fits ms s p (some t) k v q =
      let (later, inside) = k t refl in
      Fits-earlier (length src) ms s t _ later
        (rec_fits ms t p (IsValid-later ms s t later v) inside q)

  here_inside : (s p ep : ℕ) → matches_here c src pattern s p ep ≡ true → s + 1 ≤ length src
  here_inside s p ep h = ground arith

  -- After the item has matched one byte
  advance :
      (ms : MatchState) (s p : ℕ)
      → IsValid ms s
      → s + 1 ≤ length src
      → floor ≤ p
      → Good ms s (rec ms (s + 1) p)
  advance ms s p v h q =
      Fits-earlier (length src) ms s (s + 1) _ (omega arith)
        (rec_fits ms (s + 1) p (IsValid-later ms s (s + 1) (omega arith) v) h q)

  suffix-Fits :
      (ms : MatchState) (s p ep : ℕ)
      → IsValid ms s
      → s ≤ length src
      → floor ≤ ep
      → Good ms s (if matches_here c src pattern s p ep then rec ms (s + 1) ep else ok (none, ms))
  suffix-Fits ms s p ep v h q = elim (Bool-cases (matches_here c src pattern s p ep)) [
    | inl here ↦ rw here (advance ms s ep v (here_inside s p ep here) q)
    | inr not_here ↦ rw not_here (Same-refl ms)
  ]

  optional-Fits :
      (ms : MatchState) (s p ep : ℕ)
      → IsValid ms s
      → s ≤ length src
      → floor ≤ ep
      → Good ms s (
          if matches_here c src pattern s p ep
          then or_try (rec ms (s + 1) (ep + 1)) (λ ms'. rec ms' s (ep + 1))
          else rec ms s (ep + 1))
  optional-Fits ms s p ep v h q = elim (Bool-cases (matches_here c src pattern s p ep)) [
    | inl here ↦ rw here (
        Fits-or_try (length src) ms s _ _
          (advance ms s (ep + 1) v (here_inside s p ep here) (omega arith))
          (λ ms' same.
            Fits-Same (length src) ms ms' s _ same
              (rec_fits ms' s (ep + 1) (IsValid-Same ms ms' s same v) h (omega arith))))
    | inr not_here ↦ rw not_here (rec_fits ms s (ep + 1) v h (omega arith))
  ]

  repeated-Fits :
      (ms : MatchState) (s p ep : ℕ)
      → IsValid ms s
      → s ≤ length src
      → floor ≤ ep
      → Good ms s (
          if matches_here c src pattern s p ep
          then max_expand c src pattern rec ms (s + 1) p ep
          else ok (none, ms))
  repeated-Fits ms s p ep v h q = elim (Bool-cases (matches_here c src pattern s p ep)) [
    | inl here ↦ rw here (
        Fits-earlier (length src) ms s (s + 1) _ (omega arith) (
          max_expand-Fits c src pattern rec floor rec_fits ms (s + 1) p ep
            (IsValid-later ms s (s + 1) (omega arith) v) (here_inside s p ep here) (omega arith)))
    | inr not_here ↦ rw not_here (Same-refl ms)
  ]

  match_item-Fits :
      (ms : MatchState) (s p ep : ℕ)
      → IsValid ms s
      → s ≤ length src
      → floor ≤ ep
      → Good ms s (match_item c src pattern rec ms s p ep)
  unfolding match_item min_expand
  match_item-Fits ms s p ep v h q = elim (Bool-cases (p_at pattern ep == b'?')) [
    | inl e ↦ rw e (optional-Fits ms s p ep v h q)
    | inr e ↦ rw e (elim (Bool-cases (p_at pattern ep == b'*')) [
      | inl e ↦ rw e (max_expand-Fits c src pattern rec floor rec_fits ms s p ep v h (omega arith))
      | inr e ↦ rw e (elim (Bool-cases (p_at pattern ep == b'+')) [
        | inl e ↦ rw e (repeated-Fits ms s p ep v h q)
        | inr e ↦ rw e (elim (Bool-cases (p_at pattern ep == b'-')) [
          | inl e ↦
              rw e (min_loop-Fits c src pattern rec floor rec_fits _ ms s p ep v h (omega arith))
          | inr e ↦ rw e (suffix-Fits ms s p ep v h q)
        ])
      ])
    ])
  ]

  match_default-Fits :
      (ms : MatchState) (s p : ℕ)
      → IsValid ms s
      → s ≤ length src
      → floor ≤ p + 1
      → Good ms s (match_default c src pattern rec ms s p)
  unfolding match_default
  match_default-Fits ms s p v h q =
      bind-Fits (length src) ms s (class_end pattern p) _ (class_end-ne-stuck pattern p)
        (λ ep e. match_item-Fits ms s p ep v h (omega (arith, class_end_later pattern p ep e)))

  -- A result that NULL, or a place from `s` on, may give
  go_on_run-Fits :
      (ms : MatchState) (s p : ℕ) (m : Run (Option ℕ))
      → m ≢ stuck
      → ((t : ℕ) → m ≡ ok (some t) → (s ≤ t) × (t ≤ length src))
      → IsValid ms s
      → floor ≤ p
      → Good ms s (m >>= go_on c src pattern rec ms p)
  go_on_run-Fits ms s p m runs k v q =
      bind-Fits (length src) ms s m _ runs λ r e. go_on-Fits ms s p r (λ t h. k t (e ∙ ap ok h)) v q

  match_frontier-Fits :
      (ms : MatchState) (s p : ℕ)
      → IsValid ms s
      → s ≤ length src
      → floor ≤ p + 1
      → Good ms s (match_frontier c src pattern rec ms s p)
  unfolding match_frontier
  match_frontier-Fits ms s p v h q = elim (Bool-cases (p_at pattern p == b'[')) [
    | inl e ↦ rw e (
        bind-Fits (length src) ms s (class_end pattern p) _ (class_end-ne-stuck pattern p)
          (λ ep is_end.
            elim (Bool-cases (
              match_bracket_class c pattern (if s == 0 then 0 else s_at c src pattern (s - 1)) p
                (ep - 1)
              || not (match_bracket_class c pattern (s_at c src pattern s) p (ep - 1)))) [
                | inl stop ↦ rw stop (Same-refl ms)
                | inr pass ↦
                    rw pass
                      (rec_fits ms s ep v h (omega (arith, class_end_later pattern p ep is_end)))
              ]))
    | inr e ↦ rw e tt
  ]

  match_balance-Fits :
      (ms : MatchState) (s p p' : ℕ)
      → IsValid ms s
      → s ≤ length src
      → floor ≤ p'
      → Good ms s (match_balance c src pattern s p >>= go_on c src pattern rec ms p')
  unfolding match_balance
  match_balance-Fits ms s p p' v h q =
      go_on_run-Fits ms s p' _ (λ e. ground arith)
        (λ t e. ground (
          arith,
          balance_loop_fits c src pattern (length src) s (p_at pattern p) (p_at pattern (p + 1)) 1
              t,
        ))
        v q

  same_text_inside :
      (init : ℕ) (len : Extent) (s t : ℕ)
      → s ≤ length src
      → same_text c src pattern init len s ≡ some t
      → (s ≤ t) × (t ≤ length src)
  unfolding same_text
  same_text_inside init unfinished s t h e = absurd cc
  same_text_inside init position s t h e = absurd cc
  same_text_inside init (size len) s t h e = ground arith

  check_capture-ne-stuck : (ms : MatchState) (l : ℕ) → check_capture ms l ≢ stuck
  unfolding check_capture
  check_capture-ne-stuck ms l e = ground arith

  match_capture-ne-stuck :
      (ms : MatchState) (s l : ℕ) (m : Run ℕ)
      → m ≢ stuck
      → (m >>= λ i. ok (same_text c src pattern (ms.capture i).init (ms.capture i).len s)) ≢ stuck
  match_capture-ne-stuck ms s l (ok i) h e = absurd cc
  match_capture-ne-stuck ms s l (err x) h e = absurd cc
  match_capture-ne-stuck ms s l stuck h e = h refl

  match_capture_inside :
      (ms : MatchState) (s t : ℕ) (m : Run ℕ)
      → s ≤ length src
      → (m >>= λ i. ok (same_text c src pattern (ms.capture i).init (ms.capture i).len s))
        ≡ ok (some t)
      → (s ≤ t) × (t ≤ length src)
  match_capture_inside ms s t (ok i) h e =
      same_text_inside (ms.capture i).init (ms.capture i).len s t h cc
  match_capture_inside ms s t (err x) h e = absurd cc
  match_capture_inside ms s t stuck h e = absurd cc

  match_capture-Fits :
      (ms : MatchState) (s l p' : ℕ)
      → IsValid ms s
      → s ≤ length src
      → floor ≤ p'
      → Good ms s (match_capture c src pattern ms s l >>= go_on c src pattern rec ms p')
  unfolding match_capture
  match_capture-Fits ms s l p' v h q =
      go_on_run-Fits ms s p' _
        (match_capture-ne-stuck ms s l (check_capture ms l) (check_capture-ne-stuck ms l))
        (λ t e. match_capture_inside ms s t (check_capture ms l) h e) v q

  match_escape-Fits :
      (ms : MatchState) (s p : ℕ)
      → IsValid ms s
      → s ≤ length src
      → floor ≤ p + 1
      → Good ms s (match_escape c src pattern rec ms s p)
  unfolding match_escape
  match_escape-Fits ms s p v h q = elim (Bool-cases (p_at pattern (p + 1) == b'b')) [
    | inl e ↦ rw e (match_balance-Fits ms s (p + 2) (p + 4) v h (omega arith))
    | inr e ↦ rw e (elim (Bool-cases (p_at pattern (p + 1) == b'f')) [
      | inl e ↦ rw e (match_frontier-Fits ms s (p + 2) v h (omega arith))
      | inr e ↦ rw e (elim (Bool-cases (c.is_digit (p_at pattern (p + 1)))) [
        | inl e ↦ rw e (match_capture-Fits ms s _ (p + 2) v h (omega arith))
        | inr e ↦ rw e (match_default-Fits ms s p v h q)
      ])
    ])
  ]

  match_dollar-Fits :
      (ms : MatchState) (s p : ℕ)
      → IsValid ms s
      → s ≤ length src
      → floor ≤ p + 1
      → Good ms s (match_dollar c src pattern rec ms s p)
  unfolding match_dollar
  match_dollar-Fits ms s p v h q = elim (Bool-cases (p_at pattern (p + 1) == 0)) [
    | inl e ↦ rw e (elim (Bool-cases (s == length src)) [
      | inl e ↦ rw e ((omega arith, h, v, Begins-refl ms s))
      | inr e ↦ rw e (Same-refl ms)
    ])
    | inr e ↦ rw e (match_default-Fits ms s p v h q)
  ]

  match_open-Fits :
      (ms : MatchState) (s p : ℕ)
      → IsValid ms s
      → s ≤ length src
      → floor ≤ p + 1
      → Good ms s (match_open c src pattern rec ms s p)
  unfolding match_open
  match_open-Fits ms s p v h q = elim (Bool-cases (p_at pattern (p + 1) == b')')) [
    | inl e ↦ rw e (start_capture-Fits ms s (p + 2) position (omega arith) v h (omega arith))
    | inr e ↦ rw e (start_capture-Fits ms s (p + 1) unfinished (omega arith) v h q)
  ]

  pub match_step-Fits :
      (ms : MatchState) (s p : ℕ)
      → IsValid ms s
      → s ≤ length src
      → floor ≤ p + 1
      → Good ms s (match_step c src pattern rec ms s p)
  unfolding match_step
  match_step-Fits ms s p v h q = elim (Bool-cases (p_at pattern p == b'(')) [
    | inl e ↦ rw e (match_open-Fits ms s p v h q)
    | inr e ↦ rw e (elim (Bool-cases (p_at pattern p == b')')) [
      | inl e ↦ rw e (end_capture-Fits ms s (p + 1) v h q)
      | inr e ↦ rw e (elim (Bool-cases (p_at pattern p == esc)) [
        | inl e ↦ rw e (match_escape-Fits ms s p v h q)
        | inr e ↦ rw e (elim (Bool-cases (p_at pattern p == 0)) [
          | inl e ↦ rw e ((omega arith, h, v, Begins-refl ms s))
          | inr e ↦ rw e (elim (Bool-cases (p_at pattern p == b'$')) [
            | inl e ↦ rw e (match_dollar-Fits ms s p v h q)
            | inr e ↦ rw e (match_default-Fits ms s p v h q)
          ])
        ])
      ])
    ])
  ]

module _ (c : Ctype) (src pattern : List ℕ) where
  step_at_end :
      (rec : MatchState → ℕ → ℕ → Outcome) (ms : MatchState) (s p : ℕ)
      → length pattern ≤ p
      → match_step c src pattern rec ms s p ≡ ok (some s, ms)
  unfolding match_step
  step_at_end rec ms s p h = ground (arith, past_end pattern p h)

  match_rounds-Fits :
      (rounds : ℕ) (ms : MatchState) (s p : ℕ)
      → IsValid ms s
      → s ≤ length src
      → length pattern ≤ p + rounds
      → Fits (length src) ms s (match_rounds c src pattern (suc rounds) ms s p)
  unfolding match_rounds
  match_rounds-Fits zero ms s p v h q =
      rw (step_at_end (match_rounds c src pattern zero) ms s p (omega arith))
        ((omega arith, h, v, Begins-refl ms s))
  match_rounds-Fits (suc rounds) ms s p v h q =
      match_step-Fits c src pattern (match_rounds c src pattern (suc rounds)) (p + 1)
        (λ ms' s' p' v' h' q'. match_rounds-Fits rounds ms' s' p' v' h' (omega arith)) ms s p v h
        (omega arith)

  -- From a state whose captures lie before `s`, within the subject, `match` ends. If it matches, it
  -- stops between `s` and the end of the subject, every capture begun or finished lies before that
  -- place, the captures there were begin where they did, and those it has begun begin at `s` or
  -- later. If it does not, the captures and their number are what they were.
  pub do_match-Fits :
      (ms : MatchState) (s p : ℕ)
      → IsValid ms s
      → s ≤ length src
      → Fits (length src) ms s (do_match c src pattern ms s p)
  unfolding do_match
  do_match-Fits ms s p v h = match_rounds-Fits (length pattern) ms s p v h (omega arith)

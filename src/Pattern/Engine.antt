-- ===== src/Pattern/Engine.antt =====
-- lua-5.1.5/src/lstrlib.c: `match` and the functions it calls and is called by.
use lua_5_1_source_guide.Base.{
  ℕ, zero, suc, ◌+◌, ◌-◌, List, Option, none, some, Bool, not, ◌&&◌, ◌||◌, ltb, leb, ◌==◌,
  if◌then◌else◌, length, get_or, take, drop,
}
use lua_5_1_source_guide.Chunk.Header.{bytes_eq}
use lua_5_1_source_guide.Pattern.State.{
  Ctype, Extent, MatchState, max_captures, Run, ◌>>=◌, Outcome, or_try, put_capture, esc,
  check_capture, capture_to_close, unfinished, position, size, unbalanced_pattern,
  too_many_captures, missing_set_after_frontier, ok, err, stuck,
}
use lua_5_1_source_guide.Pattern.Items.{p_at, class_end, match_bracket_class, single_match}

module _ (c : Ctype) (src pattern : List ℕ) where
  abbrev pub s_at : ℕ → ℕ
  s_at i = get_or src i 0

  abbrev pub src_end : ℕ
  src_end = length src

  -- `while (++s < ms->src_end)`
  unfoldable pub balance_loop : ℕ → ℕ → ℕ → ℕ → ℕ → Option ℕ
  balance_loop zero s b e cont = none
  balance_loop (suc rounds) s b e cont =
      let same = balance_loop rounds (s + 1) b e cont in
      let deeper = balance_loop rounds (s + 1) b e (cont + 1) in
      let higher = balance_loop rounds (s + 1) b e (cont - 1) in
      if not (ltb (s + 1) src_end)
      then none
      else if s_at (s + 1) == e
      then (if cont - 1 == 0 then some (s + 2) else higher)
      else if s_at (s + 1) == b
      then deeper
      else same

  unfoldable pub match_balance : ℕ → ℕ → Run (Option ℕ)
  match_balance s p =
      if p_at pattern p == 0 || p_at pattern (p + 1) == 0
      then err unbalanced_pattern
      else if not (s_at s == p_at pattern p)
      then ok none
      else ok (balance_loop src_end s (p_at pattern p) (p_at pattern (p + 1)) 1)

  -- The first loop of `max_expand`: how often the item matches from `s` on
  unfoldable pub count_max : ℕ → ℕ → ℕ → ℕ → ℕ
  count_max zero s p ep = 0
  count_max (suc rounds) s p ep =
      let more = suc (count_max rounds (s + 1) p ep) in
      if ltb s src_end && single_match c pattern (s_at s) p ep then more else 0

  abbrev pub matches_here : ℕ → ℕ → ℕ → Bool
  matches_here s p ep = ltb s src_end && single_match c pattern (s_at s) p ep

  -- The comparison of `match_capture`. A position has length -2, which as a `size_t` exceeds every
  -- rest of the subject.
  unfoldable pub same_text : ℕ → Extent → ℕ → Option ℕ
  same_text init unfinished s = none
  same_text init position s = none
  same_text init (size len) s =
      if leb len (src_end - s) && bytes_eq (take len (drop init src)) (take len (drop s src))
      then some (s + len)
      else none

  unfoldable pub match_capture : MatchState → ℕ → ℕ → Run (Option ℕ)
  match_capture ms s l =
      check_capture ms l >>= λ i. ok (same_text (ms.capture i).init (ms.capture i).len s)

  -- The functions below call `match` through `rec`.
  module _ (rec : MatchState → ℕ → ℕ → Outcome) where
    -- `while (i>=0)`
    unfoldable pub try_down : ℕ → MatchState → ℕ → ℕ → Outcome
    try_down zero ms s ep = rec ms s (ep + 1)
    try_down (suc i) ms s ep = or_try (rec ms (s + suc i) (ep + 1)) (λ ms'. try_down i ms' s ep)

    unfoldable pub max_expand : MatchState → ℕ → ℕ → ℕ → Outcome
    max_expand ms s p ep = try_down (count_max (src_end - s) s p ep) ms s ep

    unfoldable pub min_loop : ℕ → MatchState → ℕ → ℕ → ℕ → Outcome
    min_loop zero ms s p ep = rec ms s (ep + 1)
    min_loop (suc rounds) ms s p ep = or_try (rec ms s (ep + 1)) (λ ms'.
        let more = min_loop rounds ms' (s + 1) p ep in
        if matches_here s p ep then more else ok (none, ms'))

    -- At the end of the subject the item no longer matches.
    unfoldable pub min_expand : MatchState → ℕ → ℕ → ℕ → Outcome
    min_expand ms s p ep = min_loop (src_end - s) ms s p ep

    unfoldable pub start_capture : MatchState → ℕ → ℕ → Extent → Outcome
    start_capture ms s p what =
        if leb max_captures ms.level
        then err too_many_captures
        else or_try
            (rec
              (record {
                level = ms.level + 1;
                capture = put_capture ms.capture ms.level (record { init = s; len = what });
              })
              s p)
            (λ ms'. ok (none, record ms' { level = ms'.level - 1 }))

    unfoldable pub close_at : ℕ → MatchState → ℕ → ℕ → Outcome
    close_at l ms s p =
        let init = (ms.capture l).init in
        or_try
          (rec
            (record ms {
              capture = put_capture ms.capture l (record { init = init; len = size (s - init) });
            })
            s p)
          (λ ms'. ok (
            none,
            record ms' {
              capture =
                  put_capture ms'.capture l
                    (record { init = (ms'.capture l).init; len = unfinished });
            },
          ))

    unfoldable pub end_capture : MatchState → ℕ → ℕ → Outcome
    end_capture ms s p = capture_to_close ms >>= λ l. close_at l ms s p

    -- The label `dflt`, with `ep` known
    unfoldable pub match_item : MatchState → ℕ → ℕ → ℕ → Outcome
    match_item ms s p ep =
        let m = matches_here s p ep in
        let suffix = p_at pattern ep in
        if suffix == b'?'
        then (if m
            then or_try (rec ms (s + 1) (ep + 1)) (λ ms'. rec ms' s (ep + 1))
            else rec ms s (ep + 1))
        else if suffix == b'*'
        then max_expand ms s p ep
        else if suffix == b'+'
        then (if m then max_expand ms (s + 1) p ep else ok (none, ms))
        else if suffix == b'-'
        then min_expand ms s p ep
        else if m
        then rec ms (s + 1) ep
        else ok (none, ms)

    unfoldable pub match_default : MatchState → ℕ → ℕ → Outcome
    match_default ms s p = class_end pattern p >>= λ ep. match_item ms s p ep

    -- Where NULL, the match fails; else it goes on at `p`.
    unfoldable pub go_on : MatchState → ℕ → Option ℕ → Outcome
    go_on ms p none = ok (none, ms)
    go_on ms p (some s) = rec ms s p

    unfoldable pub match_frontier : MatchState → ℕ → ℕ → Outcome
    match_frontier ms s p =
        if not (p_at pattern p == b'[')
        then err missing_set_after_frontier
        else class_end pattern p >>= λ ep.
            let previous = if s == 0 then 0 else s_at (s - 1) in
            if match_bracket_class c pattern previous p (ep - 1)
              || not (match_bracket_class c pattern (s_at s) p (ep - 1))
            then ok (none, ms)
            else rec ms s ep

    -- `case '('`
    unfoldable pub match_open : MatchState → ℕ → ℕ → Outcome
    match_open ms s p =
        if p_at pattern (p + 1) == b')'
        then start_capture ms s (p + 2) position
        else start_capture ms s (p + 1) unfinished

    -- `case L_ESC`
    unfoldable pub match_escape : MatchState → ℕ → ℕ → Outcome
    match_escape ms s p =
        let h' = p_at pattern (p + 1) in
        if h' == b'b'
        then match_balance s (p + 2) >>= go_on ms (p + 4)
        else if h' == b'f'
        then match_frontier ms s (p + 2)
        else if c.is_digit h'
        then match_capture ms s h' >>= go_on ms (p + 2)
        else match_default ms s p

    -- `case '$'`
    unfoldable pub match_dollar : MatchState → ℕ → ℕ → Outcome
    match_dollar ms s p =
        if p_at pattern (p + 1) == 0
        then (if s == src_end then ok (some s, ms) else ok (none, ms))
        else match_default ms s p

    -- One pass through the `switch` of `match`
    unfoldable pub match_step : MatchState → ℕ → ℕ → Outcome
    match_step ms s p =
        let h = p_at pattern p in
        if h == b'('
        then match_open ms s p
        else if h == b')'
        then end_capture ms s (p + 1)
        else if h == esc
        then match_escape ms s p
        else if h == 0
        then ok (some s, ms)
        else if h == b'$'
        then match_dollar ms s p
        else match_default ms s p

  -- Every call goes on behind the current item, so one round for each byte of the pattern, and one for
  -- its end, are enough.
  unfoldable pub match_rounds : ℕ → MatchState → ℕ → ℕ → Outcome
  match_rounds zero ms s p = stuck
  match_rounds (suc rounds) ms s p = match_step (match_rounds rounds) ms s p

  unfoldable pub do_match : MatchState → ℕ → ℕ → Outcome
  do_match ms s p = match_rounds (suc (length pattern)) ms s p

-- ===== src/Pattern/Found.antt =====
-- What the searches of `string.find` and `string.match` (lua-5.1.5/src/lstrlib.c) find.
use lua_5_1_source_guide.Base.{
  ℕ, zero, suc, ◌+◌, ◌-◌, ◌≤◌, ◌<◌, ◌≡◌, refl, ap, subst, ◌∙◌, arith, List, Option, none, some,
  Bool, not, ◌&&◌, ltb, length, take, drop, length-take, length-drop, Bool-cases, inl, inr,
}
use lua_5_1_source_guide.Pattern.State.{
  Ctype, Extent, size, MatchState, Run, ok, err, stuck, Outcome,
}
use lua_5_1_source_guide.Pattern.Captures.{ExtentFits, IsValid, Fits}
use lua_5_1_source_guide.Pattern.Match.{do_match-Fits}
use lua_5_1_source_guide.Pattern.Search.{
  Found, text, capture_value, push_onecapture, after_match, find_loop, find_pattern,
}

-- What a search from `init` promises: it ends, and a match it finds begins at `init` or later, ends
-- at its begin or later and within the subject, and holds all its captures, from their begins on.
abbrev pub Finds : ℕ → ℕ → Run (Option Found) → Type 0
Finds end init (ok (some f)) =
    (init ≤ f.start)
    × (f.start ≤ f.end)
    × (f.end ≤ end)
    × IsValid f.state f.end
    × ((i : ℕ) → i < f.state.level → f.start ≤ (f.state.capture i).init)
Finds end init (ok none) = Unit
Finds end init (err x) = Unit
Finds end init stuck = ⊥

later-Finds : (end s t : ℕ) (r : Run (Option Found)) → s ≤ t → Finds end t r → Finds end s r
later-Finds end s t (ok (some f)) h k = (omega (arith, k.0), k.1, k.2, k.3, k.4)
later-Finds end s t (ok none) h k = tt
later-Finds end s t (err x) h k = tt
later-Finds end s t stuck h k = k

after_match-Finds :
    (end : ℕ) (ms : MatchState) (s : ℕ) (r : Outcome) (next : MatchState → Run (Option Found))
    → ms.level ≡ 0
    → Fits end ms s r
    → ((ms' : MatchState) → Finds end s (next ms'))
    → Finds end s (after_match s r next)
unfolding after_match
after_match-Finds end ms s (ok (some e, ms')) next none_yet f k =
    (omega arith, f.0, f.1, f.2, λ i h. f.3.new i (omega (arith, none_yet)) h)
after_match-Finds end ms s (ok (none, ms')) next none_yet f k = k ms'
after_match-Finds end ms s (err x) next none_yet f k = tt
after_match-Finds end ms s stuck next none_yet f k = f

module _ (c : Ctype) (src pattern : List ℕ) where
  find_loop-Finds :
      (rounds : ℕ) (anchor : Bool) (p : ℕ) (ms : MatchState) (s : ℕ)
      → s ≤ length src
      → length src < s + rounds
      → Finds (length src) s (find_loop c src pattern rounds anchor p ms s)
  unfolding find_loop
  find_loop-Finds zero anchor p ms s h k = omega arith
  find_loop-Finds (suc rounds) anchor p ms s h k =
      after_match-Finds (length src) (record ms { level = 0 }) s _ _ refl
        (do_match-Fits c src pattern (record ms { level = 0 }) s p (λ i below. absurd (omega arith))
          h)
        λ ms'. elim (Bool-cases (ltb s (length src) && not anchor)) [
          | inl more ↦ rw more (
              later-Finds (length src) s (s + 1) _ (omega arith)
                (find_loop-Finds rounds anchor p ms' (s + 1) (ground arith) (omega arith)))
          | inr last ↦ rw last tt
        ]

  -- From a place in the subject, whatever state is left of an earlier match, the search of
  -- `string.find` and `string.match` ends. A match that it finds begins at the place or later and ends
  -- within the subject, not before its begin, and all its captures lie within the match.
  pub find_pattern-Finds :
      (ms : MatchState) (init : ℕ)
      → init ≤ length src
      → Finds (length src) init (find_pattern c src pattern ms init)
  unfolding find_pattern
  find_pattern-Finds ms init h = find_loop-Finds (length src - init + 1) _ _ ms init h (omega arith)

module _ (src : List ℕ) where
  pushes_capture :
      (ms : MatchState) (i s e : ℕ)
      → i < ms.level
      → push_onecapture src ms i s e ≡ capture_value src (ms.capture i).init (ms.capture i).len
  unfolding push_onecapture
  pushes_capture ms i s e below = ground arith

  -- After a match that ends at `e`, a capture of `l` bytes is pushed as a string of `l` bytes: it is
  -- not cut off by the end of the subject.
  pub length-push_onecapture :
      (ms : MatchState) (i l s e : ℕ)
      → IsValid ms e
      → e ≤ length src
      → i < ms.level
      → (ms.capture i).len ≡ size l
      → (t : List ℕ) × (push_onecapture src ms i s e ≡ ok (text t)) × (length t ≡ l)
  unfolding capture_value
  length-push_onecapture ms i l s e v h below is_size =
      let start = (ms.capture i).init in
      let within : start + l ≤ e =
        subst (λ (x : Extent). ExtentFits start x e) is_size (v i below) in
      (
        take l (drop start src),
        pushes_capture ms i s e below ∙ ap (capture_value src start) is_size,
        omega (arith, length-take l (drop start src), length-drop start src, within),
      )

-- ===== src/Pattern/Search.antt =====
-- lua-5.1.5/src/lstrlib.c: the searches of `string.find` and `string.match`, and the captures they push.
-- `memchr` and `memcmp` of the C library are written out.
use lua_5_1_source_guide.Base.{
  ℕ, zero, suc, ◌+◌, ◌-◌, List, [], ◌∷◌, Option, none, some, Bool, not, ◌&&◌, ltb, leb, ◌==◌,
  if◌then◌else◌, length, take, drop,
}
use lua_5_1_source_guide.Chunk.Header.{bytes_eq}
use lua_5_1_source_guide.Pattern.State.{
  Ctype, Extent, unfinished, position, size, MatchState, Run, ok, err, stuck, invalid_capture_index,
  unfinished_capture, ◌>>=◌, Outcome,
}
use lua_5_1_source_guide.Pattern.Items.{p_at}
use lua_5_1_source_guide.Pattern.Engine.{do_match}

-- `memchr(s, c, n)`, as the place in `s`
unfoldable pub find_byte : ℕ → ℕ → List ℕ → Option ℕ
find_byte zero c s = none
find_byte (suc n) c [] = none
find_byte (suc n) c (x ∷ s) =
    let later = find_byte n c s in
    if x == c then some 0 else elim later [ none ↦ none | some i ↦ some (suc i) ]

-- The `while` loop of `lmemfind`: `at` is the place of `s1` in the string. Every round passes a byte.
unfoldable pub search_loop : ℕ → ℕ → List ℕ → ℕ → ℕ → List ℕ → Option ℕ
search_loop zero at s1 l1 c tail = none
search_loop (suc rounds) at s1 l1 c tail = elim (find_byte l1 c s1) [
  | none ↦ none
  | some i ↦
      let more = search_loop rounds (at + (i + 1)) (drop (i + 1) s1) (l1 - (i + 1)) c tail in
      if bytes_eq (take (length tail) (drop (i + 1) s1)) tail then some (at + i) else more
]

unfoldable pub lmemfind : List ℕ → List ℕ → Option ℕ
lmemfind s1 [] = some 0
lmemfind s1 (c ∷ tail) =
    if ltb (length s1) (length tail + 1)
    then none
    else search_loop (length s1) 0 s1 (length s1 - length tail) c tail

-- A value on the stack: a string, or the position of a position capture
pub data Value : Type 0 where
  text : List ℕ → Value
  place : ℕ → Value

module _ (src : List ℕ) where
  -- `push_onecapture` where the capture exists
  unfoldable pub capture_value : ℕ → Extent → Run Value
  capture_value init unfinished = err unfinished_capture
  capture_value init position = ok (place (init + 1))
  capture_value init (size l) = ok (text (take l (drop init src)))

  -- The whole match lies between `s` and `e`.
  unfoldable pub push_onecapture : MatchState → ℕ → ℕ → ℕ → Run Value
  push_onecapture ms i s e =
      if leb ms.level i
      then (if i == 0 then ok (text (take (e - s) (drop s src))) else err invalid_capture_index)
      else capture_value (ms.capture i).init (ms.capture i).len

  -- `for (i = 0; i < nlevels; i++)`, with what is left to do
  unfoldable pub push_loop : ℕ → ℕ → MatchState → ℕ → ℕ → Run (List Value)
  push_loop zero i ms s e = ok []
  push_loop (suc n) i ms s e =
      push_onecapture ms i s e >>= λ v. push_loop n (i + 1) ms s e >>= λ vs. ok (v ∷ vs)

  -- `whole` says that `s` is not NULL.
  unfoldable pub push_captures : Bool → MatchState → ℕ → ℕ → Run (List Value)
  push_captures whole ms s e = push_loop (if ms.level == 0 && whole then 1 else ms.level) 0 ms s e

-- A match from `start` to `end`, with its captures
pub record Found : Type 0 where
  pub start : ℕ
  pub end : ℕ
  pub state : MatchState

-- What follows a call of `match` from `s1`: where it fails, the loop may go on.
unfoldable pub after_match : ℕ → Outcome → (MatchState → Run (Option Found)) → Run (Option Found)
after_match s1 (ok (some e, ms)) next = ok (some (record { start = s1; end = e; state = ms }))
after_match s1 (ok (none, ms)) next = next ms
after_match s1 (err x) next = err x
after_match s1 stuck next = stuck

module _ (c : Ctype) (src pattern : List ℕ) where
  -- The `do` loop of `str_find_aux`, with `p` the place behind an anchor
  unfoldable pub find_loop : ℕ → Bool → ℕ → MatchState → ℕ → Run (Option Found)
  find_loop zero anchor p ms s1 = stuck
  find_loop (suc rounds) anchor p ms s1 =
      after_match s1 (do_match c src pattern (record ms { level = 0 }) s1 p) (λ ms'.
        let more = find_loop rounds anchor p ms' (s1 + 1) in
        if ltb s1 (length src) && not anchor then more else ok none)

  -- The branch of `str_find_aux` that is no plain search. One round for each place up to the end of
  -- the subject is enough.
  unfoldable pub find_pattern : MatchState → ℕ → Run (Option Found)
  find_pattern ms init =
      let anchor = p_at pattern 0 == b'^' in
      find_loop (length src - init + 1) anchor (if anchor then 1 else 0) ms init

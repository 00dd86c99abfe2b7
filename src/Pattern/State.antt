-- ===== src/Pattern/State.antt =====
-- lua-5.1.5/src/lstrlib.c, "PATTERN MATCHING": the state of a match, its captures and its outcomes.
-- The functions of <ctype.h> are a parameter.
use lua_5_1_source_guide.Base.{
  ℕ, zero, suc, ◌-◌, Option, none, some, Bool, true, false, ◌||◌, ltb, leb, ◌==◌, if◌then◌else◌,
}

pub record Ctype : Type 0 where
  pub is_alpha : ℕ → Bool
  pub is_cntrl : ℕ → Bool
  pub is_digit : ℕ → Bool
  pub is_lower : ℕ → Bool
  pub is_punct : ℕ → Bool
  pub is_space : ℕ → Bool
  pub is_upper : ℕ → Bool
  pub is_alnum : ℕ → Bool
  pub is_xdigit : ℕ → Bool
  pub to_lower : ℕ → ℕ

-- The field `len`, with `CAP_UNFINISHED` and `CAP_POSITION`
pub data Extent : Type 0 where
  unfinished : Extent
  position : Extent
  size : ℕ → Extent

pub record Capture : Type 0 where
  pub init : ℕ
  pub len : Extent

-- What a match changes; `src_init` is 0 and `src_end` the length of the subject.
pub record MatchState : Type 0 where
  pub level : ℕ
  pub capture : ℕ → Capture

abbrev pub max_captures : ℕ
max_captures = 32

pub data MatchError : Type 0 where
  invalid_capture_index invalid_pattern_capture ends_with_percent missing_bracket : MatchError
  unbalanced_pattern too_many_captures missing_set_after_frontier unfinished_capture : MatchError

-- `stuck`: the rounds ran out.
pub data Run (A : Type 0) : Type 0 where
  ok : A → Run A
  err : MatchError → Run A
  stuck : Run A

infixl 5 ◌>>=◌
abbrev pub ◌>>=◌ : {A B : Type 0} → Run A → (A → Run B) → Run B
ok a >>= f = f a
err e >>= f = err e
stuck >>= f = stuck

-- A pointer past the match, or NULL, and the captures
abbrev pub Outcome : Type 0
Outcome = Run (Option ℕ × MatchState)

-- A result, or the next attempt on NULL
abbrev pub or_try : Outcome → (MatchState → Outcome) → Outcome
or_try (ok (some e, ms)) next = ok (some e, ms)
or_try (ok (none, ms)) next = next ms
or_try (err x) next = err x
or_try stuck next = stuck

abbrev pub is_unfinished : Extent → Bool
is_unfinished unfinished = true
is_unfinished position = false
is_unfinished (size n) = false

abbrev pub put_capture : (ℕ → Capture) → ℕ → Capture → ℕ → Capture
put_capture c i v j = if j == i then v else c j

abbrev pub esc : ℕ
esc = b'%'

unfoldable pub check_capture : MatchState → ℕ → Run ℕ
check_capture ms l =
    if ltb l b'1' || leb ms.level (l - b'1') || is_unfinished (ms.capture (l - b'1')).len
    then err invalid_capture_index
    else ok (l - b'1')

-- `for (level--; level>=0; level--)`
unfoldable pub close_below : (ℕ → Capture) → ℕ → Run ℕ
close_below c zero = err invalid_pattern_capture
close_below c (suc level) =
    let below = close_below c level in if is_unfinished (c level).len then ok level else below

unfoldable pub capture_to_close : MatchState → Run ℕ
capture_to_close ms = close_below ms.capture ms.level

-- ===== src/Tests/Patterns.antt =====
-- Pattern matches of lua-5.1.5/src/lstrlib.c on bytes of ASCII.
use lua_5_1_source_guide.Base.{
  ℕ, ◌+◌, ◌&&◌, ◌||◌, arith, List, [], ◌∷◌, Bool, leb, ltb, not, if◌then◌else◌,
}
use lua_5_1_source_guide.Pattern.State.{Ctype, MatchState, unfinished}
use lua_5_1_source_guide.Pattern.Engine.{do_match}
use lua_5_1_source_guide.Base.{◌≡◌}
use lua_5_1_source_guide.Pattern.State.{size}
use lua_5_1_source_guide.Pattern.Search.{find_pattern}
use lua_5_1_source_guide.Pattern.Search.{lmemfind}
use lua_5_1_source_guide.Pattern.Plain.{first_at, lmemfind-first_at}
use lua_5_1_source_guide.Pattern.Found.{Finds, find_pattern-Finds}
use lua_5_1_source_guide.Pattern.Captures.{Fits}
use lua_5_1_source_guide.Pattern.Match.{do_match-Fits}

abbrev between : ℕ → ℕ → ℕ → Bool
between lo hi x = leb lo x && leb x hi

abbrev is_letter : ℕ → Bool
is_letter x = between b'a' b'z' x || between b'A' b'Z' x

-- The functions of <ctype.h> in the "C" locale
abbrev ascii : Ctype
ascii = record {
  is_alpha = is_letter;
  is_cntrl = λ x. ltb x 32;
  is_digit = between b'0' b'9';
  is_lower = between b'a' b'z';
  is_punct = λ x. between 33 126 x && not (is_letter x || between b'0' b'9' x);
  is_space = λ x. between 9 13 x || leb x 32 && leb 32 x;
  is_upper = between b'A' b'Z';
  is_alnum = λ x. is_letter x || between b'0' b'9' x;
  is_xdigit = λ x. between b'0' b'9' x || between b'a' b'f' x || between b'A' b'F' x;
  to_lower = λ x. if between b'A' b'Z' x then x + 32 else x;
}

abbrev no_captures : MatchState
no_captures = record { level = 0; capture = λ i. record { init = 0; len = unfinished } }

-- "ab12", "(%a+)%d"
abbrev subject : List ℕ
subject = b'a' ∷ b'b' ∷ b'1' ∷ b'2' ∷ []

abbrev pattern : List ℕ
pattern = b'(' ∷ b'%' ∷ b'a' ∷ b'+' ∷ b')' ∷ b'%' ∷ b'd' ∷ []

do_match-Fits_example : Fits 4 no_captures 0 (do_match ascii subject pattern no_captures 0 0)
do_match-Fits_example =
    do_match-Fits ascii subject pattern no_captures 0 0 (λ i h. absurd (omega arith)) (omega arith)

find_pattern-Finds_example : Finds 4 1 (find_pattern ascii subject pattern no_captures 1)
find_pattern-Finds_example = find_pattern-Finds ascii subject pattern no_captures 1 (omega arith)

-- After the match of "ab1", with "ab" captured
abbrev one_capture : MatchState
one_capture = record { level = 1; capture = λ i. record { init = 0; len = size 2 } }

lmemfind-first_at_example :
    lmemfind subject (b'1' ∷ b'2' ∷ []) ≡ first_at (b'1' ∷ b'2' ∷ []) subject
lmemfind-first_at_example = lmemfind-first_at subject (b'1' ∷ b'2' ∷ [])

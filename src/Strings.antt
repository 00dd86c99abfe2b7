-- ===== src/Strings.antt =====
-- The functions on whole strings of lua-5.1.5/src/lstrlib.c. A string is the list of its bytes; an
-- argument is what `luaL_checkinteger` gives, `none` where an optional one is left out. `tolower` and
-- `toupper` of <ctype.h> are parameters.
pub mod Slices
pub mod Reverse
use lua_5_1_source_guide.Base.{
  ℕ, zero, suc, ◌+◌, ◌-◌, ◌%◌, ◌^◌, List, [], ◌∷◌, ◌++◌, Option, none, some, Bool, true, false, not,
  ◌&&◌, ltb, leb, ◌==◌, if◌then◌else◌, length, get_or, take, drop,
}
use lua_5_1_source_guide.Base.Int.{ℤ, pos, negsuc, ◌+ℤ◌, pos_part}
use mathlib.Core.List
use mathlib.Core.Option

unfoldable pub str_len : List ℕ → ℕ
str_len s = length s

-- `pos` is a `ptrdiff_t`; the result is not negative.
unfoldable pub posrelat : ℤ → ℕ → ℕ
posrelat (pos n) len = n
posrelat (negsuc n) len = pos_part (negsuc n +ℤ pos (len + 1))

-- The value of an optional argument
abbrev pub opt_integer : Option ℤ → ℤ → ℤ
opt_integer none d = d
opt_integer (some i) d = i

-- The bytes from one position to another, counted from 1. `none`: they are not all in the string.
unfoldable pub slice : ℕ → ℕ → List ℕ → Option (List ℕ)
slice from to s =
    if not (leb from to)
    then some []
    else if leb 1 from && leb to (length s)
    then some (take (to - from + 1) (drop (from - 1) s))
    else none

unfoldable pub str_sub : List ℕ → ℤ → Option ℤ → Option (List ℕ)
str_sub s i j =
    let start = posrelat i (length s) in
    let end = posrelat (opt_integer j (negsuc 0)) (length s) in
    slice (if ltb start 1 then 1 else start) (if ltb (length s) end then length s else end) s

-- `while (l--)`
unfoldable pub reverse_loop : ℕ → List ℕ → List ℕ
reverse_loop zero s = []
reverse_loop (suc l) s = get_or s l 0 ∷ reverse_loop l s

unfoldable pub str_reverse : List ℕ → List ℕ
str_reverse s = reverse_loop (length s) s

unfoldable pub str_lower : (ℕ → ℕ) → List ℕ → List ℕ
str_lower to_lower s = List.map to_lower s

unfoldable pub str_upper : (ℕ → ℕ) → List ℕ → List ℕ
str_upper to_upper s = List.map to_upper s

-- `while (n-- > 0)`
unfoldable pub rep_loop : ℕ → List ℕ → List ℕ
rep_loop zero s = []
rep_loop (suc n) s = s ++ rep_loop n s

unfoldable pub str_rep : List ℕ → ℤ → List ℕ
str_rep s n = rep_loop (pos_part n) s

-- What `string.byte` returns; `past_end`: it reads outside of the string.
pub data ByteOutcome : Type 0 where
  codes : List ℕ → ByteOutcome
  too_long : ByteOutcome
  past_end : ByteOutcome

abbrev pub codes_or_past : Option (List ℕ) → ByteOutcome
codes_or_past none = past_end
codes_or_past (some bytes) = codes bytes

-- The error "string slice too long": a number of bytes from 2 ^ 31 on does not fit an `int`, and cut to
-- one it is too small.
unfoldable pub str_byte : List ℕ → Option ℤ → Option ℤ → ByteOutcome
str_byte s i j =
    let posi = posrelat (opt_integer i (pos 1)) (length s) in
    let pose = posrelat (opt_integer j (pos posi)) (length s) in
    let from = if leb posi 0 then 1 else posi in
    let to = if ltb (length s) pose then length s else pose in
    if leb from to && leb (2 ^ 31) (to - from + 1)
    then too_long
    else codes_or_past (slice from to s)

-- `none` is the error "invalid value".
unfoldable pub char_code : ℤ → Option ℕ
char_code (negsuc n) = none
char_code (pos n) = if n % 256 == n then some n else none

-- The loop over the arguments
unfoldable pub str_char : List ℤ → Option (List ℕ)
str_char [] = some []
str_char (c ∷ cs) =
    let rest = str_char cs in
    elim (char_code c) [ none ↦ none | some x ↦ Option.map (λ xs. x ∷ xs) rest ]

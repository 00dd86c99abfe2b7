-- ===== src/Object.antt =====
-- lua-5.1.5/src/lobject.c: the floating point byte, the binary logarithm, and the display form of a
-- source name. An `unsigned int` is a number below 2 ^ 32, a C string the list of its bytes without
-- the final zero. A loop takes rounds, and gives `none` when they run out.
pub mod FloatByte
pub mod Log
pub mod ChunkId
use lua_5_1_source_guide.Base.{
  ℕ, zero, suc, ◌+◌, ◌-◌, ◌*◌, ◌/◌, ◌%◌, ◌^◌, bit_and, bit_or, List, [], ◌∷◌, ◌++◌, Bool, ◌||◌,
  Option, none, some, ltb, ◌==◌, if◌then◌else◌, get_or, length, take, drop,
}
use lua_5_1_source_guide.Base.Int.{ℤ, pos, negsuc, ◌+ℤ◌}
use mathlib.Core.Option

-- `while (x >= 16)`: the last `x` and `e`
pub fb_loop : ℕ → ℕ → ℕ → Option (ℕ × ℕ)
fb_loop zero x e = none
fb_loop (suc rounds) x e =
    let more = fb_loop rounds ((x + 1) % 2 ^ 32 / 2) (e + 1) in
    if ltb x 16 then some (x, e) else more

pub fb_pack : ℕ × ℕ → ℕ
fb_pack (x, e) = if ltb x 8 then x else bit_or ((e + 1) * 2 ^ 3) (x - 8)

-- Thirty rounds are enough for 32 bits: each halves `x`.
unfoldable pub int2fb : ℕ → Option ℕ
unfolding fb_loop fb_pack
int2fb x = Option.map fb_pack (fb_loop 30 x 0)

-- `none` where the value does not fit an `int`, so that the shift is undefined.
unfoldable pub fb2int : ℕ → Option ℕ
fb2int x =
    let e = bit_and (x / 2 ^ 3) 31 in
    let shifted = (bit_and x 7 + 8) * 2 ^ (e - 1) in
    if e == 0 then some x else if ltb shifted (2 ^ 31) then some shifted else none

pub log_2 : List ℕ
log_2 =
    0 ∷ 1 ∷ 2 ∷ 2 ∷ 3 ∷ 3 ∷ 3 ∷ 3 ∷ 4 ∷ 4 ∷ 4 ∷ 4 ∷ 4 ∷ 4 ∷ 4 ∷ 4 ∷ 5 ∷ 5 ∷ 5 ∷ 5 ∷ 5 ∷ 5 ∷ 5 ∷ 5
    ∷ 5 ∷ 5 ∷ 5 ∷ 5 ∷ 5 ∷ 5 ∷ 5 ∷ 5 ∷ 6 ∷ 6 ∷ 6 ∷ 6 ∷ 6 ∷ 6 ∷ 6 ∷ 6 ∷ 6 ∷ 6 ∷ 6 ∷ 6 ∷ 6 ∷ 6 ∷ 6 ∷ 6
    ∷ 6 ∷ 6 ∷ 6 ∷ 6 ∷ 6 ∷ 6 ∷ 6 ∷ 6 ∷ 6 ∷ 6 ∷ 6 ∷ 6 ∷ 6 ∷ 6 ∷ 6 ∷ 6 ∷ 7 ∷ 7 ∷ 7 ∷ 7 ∷ 7 ∷ 7 ∷ 7 ∷ 7
    ∷ 7 ∷ 7 ∷ 7 ∷ 7 ∷ 7 ∷ 7 ∷ 7 ∷ 7 ∷ 7 ∷ 7 ∷ 7 ∷ 7 ∷ 7 ∷ 7 ∷ 7 ∷ 7 ∷ 7 ∷ 7 ∷ 7 ∷ 7 ∷ 7 ∷ 7 ∷ 7 ∷ 7
    ∷ 7 ∷ 7 ∷ 7 ∷ 7 ∷ 7 ∷ 7 ∷ 7 ∷ 7 ∷ 7 ∷ 7 ∷ 7 ∷ 7 ∷ 7 ∷ 7 ∷ 7 ∷ 7 ∷ 7 ∷ 7 ∷ 7 ∷ 7 ∷ 7 ∷ 7 ∷ 7 ∷ 7
    ∷ 7 ∷ 7 ∷ 7 ∷ 7 ∷ 7 ∷ 7 ∷ 7 ∷ 7 ∷ 8 ∷ 8 ∷ 8 ∷ 8 ∷ 8 ∷ 8 ∷ 8 ∷ 8 ∷ 8 ∷ 8 ∷ 8 ∷ 8 ∷ 8 ∷ 8 ∷ 8 ∷ 8
    ∷ 8 ∷ 8 ∷ 8 ∷ 8 ∷ 8 ∷ 8 ∷ 8 ∷ 8 ∷ 8 ∷ 8 ∷ 8 ∷ 8 ∷ 8 ∷ 8 ∷ 8 ∷ 8 ∷ 8 ∷ 8 ∷ 8 ∷ 8 ∷ 8 ∷ 8 ∷ 8 ∷ 8
    ∷ 8 ∷ 8 ∷ 8 ∷ 8 ∷ 8 ∷ 8 ∷ 8 ∷ 8 ∷ 8 ∷ 8 ∷ 8 ∷ 8 ∷ 8 ∷ 8 ∷ 8 ∷ 8 ∷ 8 ∷ 8 ∷ 8 ∷ 8 ∷ 8 ∷ 8 ∷ 8 ∷ 8
    ∷ 8 ∷ 8 ∷ 8 ∷ 8 ∷ 8 ∷ 8 ∷ 8 ∷ 8 ∷ 8 ∷ 8 ∷ 8 ∷ 8 ∷ 8 ∷ 8 ∷ 8 ∷ 8 ∷ 8 ∷ 8 ∷ 8 ∷ 8 ∷ 8 ∷ 8 ∷ 8 ∷ 8
    ∷ 8 ∷ 8 ∷ 8 ∷ 8 ∷ 8 ∷ 8 ∷ 8 ∷ 8 ∷ 8 ∷ 8 ∷ 8 ∷ 8 ∷ 8 ∷ 8 ∷ 8 ∷ 8 ∷ 8 ∷ 8 ∷ 8 ∷ 8 ∷ 8 ∷ 8 ∷ 8 ∷ 8
    ∷ 8 ∷ 8 ∷ 8 ∷ 8 ∷ 8 ∷ 8 ∷ 8 ∷ 8 ∷ 8 ∷ 8 ∷ 8 ∷ 8 ∷ 8 ∷ 8 ∷ 8 ∷ 8 ∷ []

-- `while (x >= 256)`: the value returned
pub log2_loop : ℕ → ℕ → ℤ → Option ℤ
log2_loop zero x l = none
log2_loop (suc rounds) x l =
    let more = log2_loop rounds (x / 2 ^ 8) (l +ℤ pos 8) in
    if ltb x 256 then some (l +ℤ pos (get_or log_2 x 0)) else more

-- Four rounds are enough for 32 bits.
unfoldable pub log2 : ℕ → Option ℤ
unfolding log2_loop log_2
log2 x = log2_loop 4 x (negsuc 0)

-- The macro `ceillog2` of lobject.h; `x - 1` is unsigned.
unfoldable pub ceil_log2 : ℕ → Option ℤ
ceil_log2 x = Option.map (λ l. l +ℤ pos 1) (log2 ((x + 2 ^ 32 - 1) % 2 ^ 32))

-- `strcspn(s, "\n\r")`
unfoldable pub line_length : List ℕ → ℕ
line_length [] = 0
line_length (c ∷ s) = if c == 10 || c == 13 then 0 else suc (line_length s)

-- `[string "`, `"]` and `...`
abbrev pub string_open : List ℕ
string_open = b'[' ∷ b's' ∷ b't' ∷ b'r' ∷ b'i' ∷ b'n' ∷ b'g' ∷ b' ' ∷ 34 ∷ []

abbrev pub string_close : List ℕ
string_close = 34 ∷ b']' ∷ []

abbrev pub dots : List ℕ
dots = b'.' ∷ b'.' ∷ b'.' ∷ []

-- The sizes of the texts " '...' " and " [string \"...\"] ", with their final zeros
abbrev pub file_frame : ℕ
file_frame = 8

abbrev pub string_frame : ℕ
string_frame = 17

-- The source begins with `@`; `room` is `bufflen` less the frame.
unfoldable pub file_id : List ℕ → ℕ → List ℕ
file_id name room = let l = length name in if ltb room l then dots ++ drop (l - room) name else name

unfoldable pub string_body : List ℕ → ℕ → List ℕ
string_body source len = if ltb len (length source) then take len source ++ dots else source

unfoldable pub string_id : List ℕ → ℕ → List ℕ
string_id source room =
    let line = line_length source in
    string_open ++ (string_body source (if ltb room line then room else line) ++ string_close)

-- `luaO_chunkid`; `size_t` differences wrap.
unfoldable pub chunk_id : List ℕ → ℕ → List ℕ
chunk_id [] bufflen = string_id [] ((bufflen + 2 ^ 64 - string_frame) % 2 ^ 64)
chunk_id (c ∷ name) bufflen =
    if c == b'='
    then take (bufflen - 1) name
    else if c == b'@'
    then file_id name ((bufflen + 2 ^ 64 - file_frame) % 2 ^ 64)
    else string_id (c ∷ name) ((bufflen + 2 ^ 64 - string_frame) % 2 ^ 64)

-- ===== src/Strings/Slices.antt =====
-- `string.sub`, `string.byte` and `string.char` (lua-5.1.5/src/lstrlib.c) against plain lists.
use lua_5_1_source_guide.Base.{
  ℕ, zero, suc, ◌+◌, ◌-◌, ◌^◌, ◌≤◌, ◌<◌, ◌≡◌, refl, sym, ap, ap₂, ◌∙◌, arith, List, [], ◌∷◌, ◌++◌,
  none, some, ltb, leb, if◌then◌else◌, length, take, drop, All, take-append-drop, take-all,
  length-drop, Bool-cases, inl, inr,
}
use lua_5_1_source_guide.Base.Int.{pos, negsuc, ◌+ℤ◌}
use lua_5_1_source_guide.Strings.{posrelat, slice, str_sub, codes, str_byte, char_code, str_char}
use mathlib.Core.List

drop_past : (n : ℕ) (s : List ℕ) → length s ≤ n → drop n s ≡ []
drop_past zero [] h = refl
drop_past (suc n) [] h = refl
drop_past zero (x ∷ s) h = absurd (omega arith)
drop_past (suc n) (x ∷ s) h = drop_past n s (omega arith)

slice_at :
    (from to n a : ℕ) (s : List ℕ)
    → from ≤ to
    → 1 ≤ from
    → to ≤ length s
    → n ≡ to - from + 1
    → a ≡ from - 1
    → slice from to s ≡ some (take n (drop a s))
unfolding slice
slice_at from to n a s h lo hi e f = rw (e, f) (ground arith)

slice_empty : (from to : ℕ) (s : List ℕ) → to < from → slice from to s ≡ some []
unfolding slice
slice_empty from to s h = ground arith

slice_rest : (s : List ℕ) (i : ℕ) → slice (suc i) (length s) s ≡ some (drop i s)
slice_rest s i = elim (Bool-cases (leb (suc i) (length s))) [
  | inl inside ↦
      slice_at (suc i) (length s) (length s - i) i s (ground arith) (omega arith) (omega arith)
        (ground arith) (omega arith)
      ∙ ap some (take-all (length s - i) (drop i s) (omega (arith, length-drop i s)))
  | inr past ↦
      slice_empty (suc i) (length s) s (ground arith) ∙ ap some (sym (drop_past i s (ground arith)))
]

slice_front : (s : List ℕ) (i : ℕ) → i ≤ length s → slice 1 i s ≡ some (take i s)
slice_front s zero h = slice_empty 1 0 s (omega arith)
slice_front s (suc i) h =
    slice_at 1 (suc i) (suc i) 0 s (omega arith) (omega arith) h (omega arith) (omega arith)

from_end : (l n : ℕ) → posrelat (negsuc n) l ≡ l - n
unfolding posrelat ◌+ℤ◌
from_end l n = ground arith

-- The clamped positions
clamp_end : (l : ℕ) → (if ltb l (posrelat (negsuc 0) l) then l else posrelat (negsuc 0) l) ≡ l
clamp_end l = ground (arith, from_end l 0)

sub_rest : (s : List ℕ) (i : ℕ) → str_sub s (pos (suc i)) none ≡ some (drop i s)
unfolding str_sub posrelat
sub_rest s i =
    let first : (if ltb (suc i) 1 then 1 else suc i) ≡ suc i = ground arith in
    ap₂ (λ (f t : ℕ). slice f t s) first (clamp_end (length s)) ∙ slice_rest s i

sub_front : (s : List ℕ) (i : ℕ) → str_sub s (pos 1) (some (pos i)) ≡ some (take i s)
unfolding str_sub posrelat
sub_front s i = elim (Bool-cases (ltb (length s) i)) [
  | inl past ↦ rw past (
      slice_front s (length s) (omega arith)
      ∙ ap some (take-all (length s) s (omega arith) ∙ sym (take-all i s (ground arith))))
  | inr inside ↦ rw inside (slice_front s i (ground arith))
]

-- Cut at any place, within the string or after it, `string.sub(s, 1, i)` gives the first `i` bytes, or
-- all if there are fewer, and `string.sub(s, i + 1)` the rest, without reading past the end; put
-- together they are the string.
pub str_sub-append :
    (s : List ℕ) (i : ℕ)
    → (a b : List ℕ) × (str_sub s (pos 1) (some (pos i)) ≡ some a)
      × (str_sub s (pos (suc i)) none ≡ some b)
      × (a ≡ take i s)
      × (a ++ b ≡ s)
str_sub-append s i = (take i s, drop i s, sub_front s i, sub_rest s i, refl, take-append-drop i s)

-- `string.sub(s, -(n + 1))` is what is left when all but the last `n + 1` bytes are dropped, and the
-- whole string where it is shorter.
pub str_sub-last :
    (s : List ℕ) (n : ℕ) → str_sub s (negsuc n) none ≡ some (drop (length s - suc n) s)
unfolding str_sub
str_sub-last s n =
    let first : (if ltb (posrelat (negsuc n) (length s)) 1
          then 1
          else posrelat (negsuc n) (length s))
        ≡ suc (length s - suc n) =
      ground (arith, from_end (length s) n) in
    ap₂ (λ (f t : ℕ). slice f t s) first (clamp_end (length s)) ∙ slice_rest s (length s - suc n)

code_of : (b : ℕ) → b < 256 → char_code (pos b) ≡ some b
unfolding char_code
code_of b h = ground arith

codes_of : (bytes : List ℕ) → All (λ b. b < 256) bytes → str_char (List.map pos bytes) ≡ some bytes
unfolding str_char
codes_of [] h = refl
codes_of (b ∷ bytes) h = rw (code_of b h.0, str_char) (rw (codes_of bytes h.1) refl)

byte_all : (s : List ℕ) → length s < 2 ^ 31 → str_byte s none (some (negsuc 0)) ≡ codes s
unfolding str_byte posrelat
byte_all s h =
    let whole : slice 1 (length s) s ≡ some s = slice_rest s 0 in
    rw (clamp_end (length s)) (ground (arith, whole))

-- On a string of less than 2 ^ 31 bytes, `string.byte(s, 1, -1)` gives all its bytes, and
-- `string.char` of them is the string again.
pub str_char-str_byte :
    (s : List ℕ)
    → length s < 2 ^ 31
    → All (λ b. b < 256) s
    → (bytes : List ℕ) × (str_byte s none (some (negsuc 0)) ≡ codes bytes)
      × (str_char (List.map pos bytes) ≡ some s)
str_char-str_byte s h all = (s, byte_all s h, codes_of s all)

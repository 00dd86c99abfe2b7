-- ===== src/Tests/Texts.antt =====
-- Functions on whole strings of lua-5.1.5/src/lstrlib.c at concrete inputs.
use lua_5_1_source_guide.Base.{ℕ, ◌≡◌, List, [], ◌∷◌, ◌++◌, none, some, take}
use lua_5_1_source_guide.Base.Int.{pos}
use lua_5_1_source_guide.Strings.{str_sub, str_reverse}
use lua_5_1_source_guide.Strings.Slices.{str_sub-append}
use mathlib.Core.List
use lua_5_1_source_guide.Strings.Reverse.{str_reverse-reverse}

abbrev word : List ℕ
word = b'l' ∷ b'u' ∷ b'a' ∷ []

str_sub-append_example :
    (a b : List ℕ) × (str_sub word (pos 1) (some (pos 2)) ≡ some a)
    × (str_sub word (pos 3) none ≡ some b)
    × (a ≡ take 2 word)
    × (a ++ b ≡ word)
str_sub-append_example = str_sub-append word 2

str_reverse-reverse_example : str_reverse word ≡ List.reverse word
str_reverse-reverse_example = str_reverse-reverse word

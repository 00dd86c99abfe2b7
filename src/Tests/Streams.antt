-- ===== src/Tests/Streams.antt =====
-- A stream cut into blocks, read by lua-5.1.5/src/lzio.c.
use lua_5_1_source_guide.Base.{ℕ, ◌-◌, ◌^◌, ◌≡◌, refl, arith, List, [], ◌∷◌, none, some, length}
use lua_5_1_source_guide.Zio.{Zio, read, get_char}
use lua_5_1_source_guide.Zio.Stream.{stop, block, Delivers, read-Delivers, read_missing}
use lua_5_1_source_guide.Zio.Chars.{get_char_end}

-- The reader gives one block of a list of blocks after the other.
abbrev pub Blocks : Type 0
Blocks = List (List ℕ)

abbrev pub reader : Blocks → List ℕ × Blocks
reader [] = ([], [])
reader (b ∷ bs) = (b, bs)

abbrev pub from_blocks : Blocks → Zio Blocks
from_blocks bs = record { n = 0; p = []; source = bs }

abbrev two_blocks : Blocks
two_blocks = (1 ∷ 2 ∷ []) ∷ (3 ∷ 4 ∷ 5 ∷ []) ∷ []

abbrev all_bytes : List ℕ
all_bytes = 1 ∷ 2 ∷ 3 ∷ 4 ∷ 5 ∷ []

two_blocks-Delivers : Delivers reader (from_blocks two_blocks) all_bytes
two_blocks-Delivers = record {
  later = all_bytes;
  count = refl;
  feeds = block refl (block refl (stop refl refl) refl) refl;
  parts = refl;
}

nothing-Delivers : Delivers reader (from_blocks []) []
nothing-Delivers = record { later = []; count = refl; feeds = stop refl refl; parts = refl }

read-Delivers_example :
    (last : Zio Blocks) × (read reader (from_blocks two_blocks) 4
      ≡ some (1 ∷ 2 ∷ 3 ∷ 4 ∷ [], 0, last))
    × Delivers reader last (5 ∷ [])
read-Delivers_example =
    read-Delivers reader (from_blocks two_blocks) 4 all_bytes two_blocks-Delivers (omega arith)

read_missing_example :
    (last : Zio Blocks) × (read reader (from_blocks two_blocks) 8
      ≡ some (all_bytes, 8 - length all_bytes, last))
read_missing_example =
    read_missing reader (from_blocks two_blocks) 8 all_bytes two_blocks-Delivers (omega arith)

get_char_end_example :
    (next : Zio Blocks) × (get_char reader (from_blocks []) ≡ some (none, next))
    × (next.n ≡ 2 ^ 64 - 1)
    × (get_char reader next ≡ none)
get_char_end_example = get_char_end reader (from_blocks []) nothing-Delivers

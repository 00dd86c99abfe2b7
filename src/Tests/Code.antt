-- ===== src/Tests/Code.antt =====
-- Jumps of lua-5.1.5/src/lcode.c in a code of three instructions.
use lua_5_1_source_guide.Base.{ℕ, List, [], ◌∷◌}

-- Two jumps without a destination, and a return
abbrev code : List ℕ
code = 0x7fff8016 ∷ 0x7fff8016 ∷ 0x0080001e ∷ []

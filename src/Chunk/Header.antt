-- ===== src/Chunk/Header.antt =====
-- `luaU_header` (lua-5.1.5/src/lundump.c) on a little-endian machine with 4-byte `int`, 8-byte
-- `size_t`, 4-byte `Instruction` and 8-byte floating `lua_Number`, and the comparison of byte strings.
use lua_5_1_source_guide.Base.{
  ℕ, ◌≡◌, refl, arith, List, [], ◌∷◌, Bool, true, false, ◌&&◌, ◌==◌, Option, none, some,
}
use lua_5_1_source_guide.Chunk.Proto.{Str}

unfoldable pub header : List ℕ
header = 27 ∷ b'L' ∷ b'u' ∷ b'a' ∷ 0x51 ∷ 0 ∷ 1 ∷ 4 ∷ 8 ∷ 4 ∷ 8 ∷ 0 ∷ []

abbrev pub header_size : ℕ
header_size = 12

-- `memcmp(a, b, n) == 0`
unfoldable pub bytes_eq : List ℕ → List ℕ → Bool
bytes_eq [] [] = true
bytes_eq (x ∷ xs) (y ∷ ys) = x == y && bytes_eq xs ys
bytes_eq _ _ = false

-- Equality of pointers to strings: strings are interned, so equal texts have one address.
unfoldable pub name_eq : Option Str → Option Str → Bool
unfolding bytes_eq
name_eq none none = true
name_eq (some s) (some t) = bytes_eq s t
name_eq _ _ = false

pub bytes_eq_self : (xs : List ℕ) → bytes_eq xs xs ≡ true
unfolding bytes_eq
bytes_eq_self [] = refl
bytes_eq_self (x ∷ xs) = ground (arith, bytes_eq_self xs)

pub bytes_eq→eq : (xs ys : List ℕ) → bytes_eq xs ys ≡ true → xs ≡ ys
unfolding bytes_eq
bytes_eq→eq [] [] h = refl
bytes_eq→eq (x ∷ xs) (y ∷ ys) h = ground (arith, bytes_eq→eq xs ys)
bytes_eq→eq [] (y ∷ ys) h = absurd cc
bytes_eq→eq (x ∷ xs) [] h = absurd cc

pub name_eq_self : (s : Option Str) → name_eq s s ≡ true
unfolding name_eq
name_eq_self none = refl
name_eq_self (some s) = bytes_eq_self s

pub name_eq→eq : (s t : Option Str) → name_eq s t ≡ true → s ≡ t
unfolding name_eq
name_eq→eq none none h = refl
name_eq→eq (some s) (some t) h = ground (arith, bytes_eq→eq s t)
name_eq→eq none (some t) h = absurd cc
name_eq→eq (some s) none h = absurd cc

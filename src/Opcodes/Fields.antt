-- ===== src/Opcodes/Fields.antt =====
-- The macros on the fields of an instruction (lua-5.1.5/src/lopcodes.h) as arithmetic on the word.
use lua_5_1_source_guide.Base.{ℕ, ◌+◌, ◌*◌, ◌/◌, ◌%◌, ◌^◌, ◌≤◌, ◌≡◌, arith}
use lua_5_1_source_guide.Base.Bits.{low_mask, keep_field, clear_field, join_field}
use lua_5_1_source_guide.Opcodes.{
  IsInstruction, get_opcode, get_arg_a, get_arg_b, get_arg_c, get_arg_bx, set_opcode, set_arg_a,
  set_arg_b, set_arg_c, set_arg_bx, create_abc, create_abx, mask1, mask0,
}

-- Each reader takes the digits of its field.
module _ (i : ℕ) where
  pub read_opcode : get_opcode i ≡ i % 2 ^ 6
  unfolding get_opcode mask1
  read_opcode = ground (arith, low_mask 6 i)

  pub read_a : get_arg_a i ≡ i / 2 ^ 6 % 2 ^ 8
  unfolding get_arg_a mask1
  read_a = low_mask 8 (i / 2 ^ 6)

  pub read_b : get_arg_b i ≡ i / 2 ^ 23 % 2 ^ 9
  unfolding get_arg_b mask1
  read_b = low_mask 9 (i / 2 ^ 23)

  pub read_c : get_arg_c i ≡ i / 2 ^ 14 % 2 ^ 9
  unfolding get_arg_c mask1
  read_c = low_mask 9 (i / 2 ^ 14)

  pub read_bx : get_arg_bx i ≡ i / 2 ^ 14 % 2 ^ 18
  unfolding get_arg_bx mask1
  read_bx = low_mask 18 (i / 2 ^ 14)

-- Each writer puts `u` between the digits above the field and those below it.
module _ (i u : ℕ) (h : IsInstruction i) where
  pub write_opcode : u ≤ 63 → set_opcode i u ≡ i / 2 ^ 6 * 2 ^ 6 + u
  unfolding set_opcode mask1 mask0
  write_opcode k =
      ground
        (arith, clear_field 0 6 26 i, keep_field 0 6 (u * 2 ^ 0), join_field 0 6 (i / 2 ^ 6) u 0)

  pub write_a : u ≤ 255 → set_arg_a i u ≡ (i / 2 ^ 14 * 2 ^ 8 + u) * 2 ^ 6 + i % 2 ^ 6
  unfolding set_arg_a mask1 mask0
  write_a k = ground (
    arith,
    clear_field 6 8 18 i,
    keep_field 6 8 (u * 2 ^ 6),
    join_field 6 8 (i / 2 ^ 14) u (i % 2 ^ 6),
  )

  pub write_b : u ≤ 511 → set_arg_b i u ≡ u * 2 ^ 23 + i % 2 ^ 23
  unfolding set_arg_b mask1 mask0
  write_b k =
      ground (
        arith,
        clear_field 23 9 0 i,
        keep_field 23 9 (u * 2 ^ 23),
        join_field 23 9 0 u (i % 2 ^ 23),
      )

  pub write_c : u ≤ 511 → set_arg_c i u ≡ (i / 2 ^ 23 * 2 ^ 9 + u) * 2 ^ 14 + i % 2 ^ 14
  unfolding set_arg_c mask1 mask0
  write_c k = ground (
    arith,
    clear_field 14 9 9 i,
    keep_field 14 9 (u * 2 ^ 14),
    join_field 14 9 (i / 2 ^ 23) u (i % 2 ^ 14),
  )

  pub write_bx : u ≤ 262143 → set_arg_bx i u ≡ u * 2 ^ 14 + i % 2 ^ 14
  unfolding set_arg_bx mask1 mask0
  write_bx k = ground (
    arith,
    clear_field 14 18 0 i,
    keep_field 14 18 (u * 2 ^ 14),
    join_field 14 18 0 u (i % 2 ^ 14),
  )

pub build_abc :
    (o a b c : ℕ)
    → o ≤ 63
    → a ≤ 255
    → b ≤ 511
    → c ≤ 511
    → create_abc o a b c ≡ ((b * 2 ^ 9 + c) * 2 ^ 8 + a) * 2 ^ 6 + o
unfolding create_abc
build_abc o a b c ho ha hb hc = ground (
  arith,
  join_field 6 8 0 a o,
  join_field 23 9 0 b (a * 2 ^ 6 + o),
  join_field 14 9 b c (a * 2 ^ 6 + o),
)

pub build_abx :
    (o a bx : ℕ) → o ≤ 63 → a ≤ 255 → bx ≤ 262143 → create_abx o a bx ≡ (bx * 2 ^ 8 + a) * 2 ^ 6 + o
unfolding create_abx
build_abx o a bx ho ha hb =
    ground (arith, join_field 6 8 0 a o, join_field 14 18 0 bx (a * 2 ^ 6 + o))

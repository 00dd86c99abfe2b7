-- ===== src/Opcodes/Words.antt =====
-- The macros of lua-5.1.5/src/lopcodes.h give 32-bit words for every argument, also for one that does
-- not fit its field.
use lua_5_1_source_guide.Base.{ℕ, arith, bit_and, bit_or}
use lua_5_1_source_guide.Base.Int.{ℤ}
use lua_5_1_source_guide.Base.Bits.{bit_or_below, bit_and_below}
use lua_5_1_source_guide.Opcodes.{
  IsInstruction, shl_u32, set_arg_a, set_arg_b, set_arg_c, set_arg_bx, set_arg_sbx, create_abc,
  create_abx, pos_a, pos_b, pos_c, pos_op, pos_bx,
}

shl_word : (x k : ℕ) → IsInstruction (shl_u32 x k)
shl_word x k = omega arith

or_word : (a b : ℕ) → IsInstruction a → IsInstruction b → IsInstruction (bit_or a b)
or_word a b h k = bit_or_below 32 a b h k

and_word : (a b : ℕ) → IsInstruction a → IsInstruction (bit_and a b)
and_word a b h = bit_and_below 32 a b h

ruleset word_rules = (shl_word, or_word, and_word)

pub create_abc-IsInstruction : (o a b c : ℕ) → IsInstruction (create_abc o a b c)
unfolding create_abc
create_abc-IsInstruction o a b c =
    or_word _ _
      (or_word _ _ (or_word _ _ (shl_word o pos_op) (shl_word a pos_a)) (shl_word b pos_b))
      (shl_word c pos_c)

pub create_abx-IsInstruction : (o a bx : ℕ) → IsInstruction (create_abx o a bx)
unfolding create_abx
create_abx-IsInstruction o a bx =
    or_word _ _ (or_word _ _ (shl_word o pos_op) (shl_word a pos_a)) (shl_word bx pos_bx)

pub set_arg_a-IsInstruction : (i u : ℕ) → IsInstruction i → IsInstruction (set_arg_a i u)
unfolding set_arg_a
set_arg_a-IsInstruction i u h = or_word _ _ (and_word i _ h) (and_word _ _ (shl_word u pos_a))

pub set_arg_b-IsInstruction : (i u : ℕ) → IsInstruction i → IsInstruction (set_arg_b i u)
unfolding set_arg_b
set_arg_b-IsInstruction i u h = or_word _ _ (and_word i _ h) (and_word _ _ (shl_word u pos_b))

pub set_arg_c-IsInstruction : (i u : ℕ) → IsInstruction i → IsInstruction (set_arg_c i u)
unfolding set_arg_c
set_arg_c-IsInstruction i u h = or_word _ _ (and_word i _ h) (and_word _ _ (shl_word u pos_c))

pub set_arg_bx-IsInstruction : (i u : ℕ) → IsInstruction i → IsInstruction (set_arg_bx i u)
unfolding set_arg_bx
set_arg_bx-IsInstruction i u h = or_word _ _ (and_word i _ h) (and_word _ _ (shl_word u pos_bx))

pub set_arg_sbx-IsInstruction : (i : ℕ) (u : ℤ) → IsInstruction i → IsInstruction (set_arg_sbx i u)
unfolding set_arg_sbx
set_arg_sbx-IsInstruction i u h = set_arg_bx-IsInstruction i _ h

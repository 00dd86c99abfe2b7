-- ===== src/Code/Constants.antt =====
-- lua-5.1.5/src/lcode.c: the constants of a function. The comparison of numbers and the test for NaN,
-- which the table `fs->h` makes on its keys, are parameters.
use lua_5_1_source_guide.Base.{
  ℕ, List, [], ◌∷◌, ◌++◌, Option, none, some, Bool, true, false, leb, if◌then◌else◌, length, get_or,
}
use lua_5_1_source_guide.Opcodes.{max_arg_bx}
use lua_5_1_source_guide.Chunk.Proto.{Str, Constant}
use lua_5_1_source_guide.Chunk.Header.{name_eq}
use lua_5_1_source_guide.Code.State.{
  ok, err, Key, the_table, constant, Gen, ◌>>=◌, ◌>>◌, get, assert, return, constant_table_overflow,
  index_is_nan,
}

-- The arithmetic of `lua_Number`, on 64-bit patterns
pub record Numbers : Type 0 where
  pub num_eq : ℕ → ℕ → Bool
  pub is_nan : ℕ → Bool
  pub num_add : ℕ → ℕ → ℕ
  pub num_sub : ℕ → ℕ → ℕ
  pub num_mul : ℕ → ℕ → ℕ
  pub num_div : ℕ → ℕ → ℕ
  pub num_mod : ℕ → ℕ → ℕ
  pub num_pow : ℕ → ℕ → ℕ
  pub num_unm : ℕ → ℕ

abbrev bool_eq : Bool → Bool → Bool
bool_eq true b = b
bool_eq false true = false
bool_eq false false = true

-- Nil is no key; the table itself stands for it.
abbrev pub key_of : Constant → Key
key_of Constant.nil = the_table
key_of (Constant.boolean b) = constant (Constant.boolean b)
key_of (Constant.number r) = constant (Constant.number r)
key_of (Constant.string s) = constant (Constant.string s)

module _ (num : Numbers) where
  unfoldable pub key_eq : Key → Key → Bool
  key_eq the_table the_table = true
  key_eq (constant (Constant.boolean a)) (constant (Constant.boolean b)) = bool_eq a b
  key_eq (constant (Constant.number a)) (constant (Constant.number b)) = num.num_eq a b
  key_eq (constant (Constant.string a)) (constant (Constant.string b)) = name_eq a b
  key_eq _ _ = false

  -- `luaO_rawequalObj` on constants
  abbrev pub raw_equal : Constant → Constant → Bool
  raw_equal a b = key_eq (key_of a) (key_of b)

  unfoldable pub lookup : Key → List (Key × ℕ) → Option ℕ
  lookup key [] = none
  lookup key ((key', i) ∷ h) = let rest = lookup key h in if key_eq key' key then some i else rest

  abbrev pub is_nan_key : Key → Bool
  is_nan_key (constant (Constant.number a)) = num.is_nan a
  is_nan_key _ = false

  -- A key that is not in the table gets the next index. The array grows to `MAXARG_Bx` elements at most.
  unfoldable pub new_constant : Key → Constant → Gen ℕ
  new_constant key v fs =
      if is_nan_key key
      then err index_is_nan
      else if leb max_arg_bx (length fs.k)
      then err constant_table_overflow
      else ok (length fs.k, record fs { k = fs.k ++ v ∷ []; h = (key, length fs.k) ∷ fs.h })

  -- `lua_assert` that the constant found is the one asked for
  unfoldable pub found_constant : ℕ → Constant → Gen ℕ
  found_constant i v = do
    old ← get (λ fs. get_or fs.k i Constant.nil)
    assert (raw_equal old v)
    return i

  unfoldable pub addk : Key → Constant → Gen ℕ
  addk key v fs = elim (lookup key fs.h) [
    | some i ↦ found_constant i v fs
    | none ↦ new_constant key v fs
  ]

  unfoldable pub string_k : Str → Gen ℕ
  string_k s = addk (constant (Constant.string (some s))) (Constant.string (some s))

  unfoldable pub number_k : ℕ → Gen ℕ
  number_k r = addk (constant (Constant.number r)) (Constant.number r)

  unfoldable pub bool_k : Bool → Gen ℕ
  bool_k b = addk (constant (Constant.boolean b)) (Constant.boolean b)

  unfoldable pub nil_k : Gen ℕ
  nil_k = addk the_table Constant.nil

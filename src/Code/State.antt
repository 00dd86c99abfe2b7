-- ===== src/Code/State.antt =====
-- lua-5.1.5/src/lparser.h: the state of the code generator and the description of an expression, and
-- the monad of its operations. An error that ends the compilation is a value; so is an assertion
-- (`lua_assert`) that does not hold.
use lua_5_1_source_guide.Base.{ℕ, List, Bool, true, false}
use lua_5_1_source_guide.Base.Int.{ℤ}
use lua_5_1_source_guide.Chunk.Proto.{Constant}

pub data CodeError : Type 0 where
  control_structure_too_long expression_too_complex constant_table_overflow : CodeError
  code_size_overflow index_is_nan assertion : CodeError

-- `stuck`: the rounds of a walk along a list of jumps ran out.
pub data Outcome (A : Type 0) : Type 0 where
  ok : A → Outcome A
  err : CodeError → Outcome A
  stuck : Outcome A

-- What the table `fs->h` is asked for: a constant, or the table itself, which stands for nil
pub data Key : Type 0 where
  the_table : Key
  constant : Constant → Key

-- `code` and `lineinfo` are the first `pc` elements of the arrays of the prototype, `k` the first `nk`
-- constants; `lastline` is a field of `fs->ls`. A list of jumps is its first place, or -1.
pub record FuncState : Type 0 where
  pub code : List ℕ
  pub lineinfo : List ℕ
  pub k : List Constant
  pub h : List (Key × ℕ)
  pub max_stack_size : ℕ
  pub lasttarget : ℤ
  pub jpc : ℤ
  pub freereg : ℕ
  pub nactvar : ℕ
  pub lastline : ℕ

pub data ExpKind : Type 0 where
  vvoid vnil vtrue vfalse vk vknum vlocal vupval vglobal vindexed : ExpKind
  vjmp vrelocable vnonreloc vcall vvararg : ExpKind

-- The members of the union `u` are fields of their own: `nval` belongs to the kind `vknum`, and no
-- operation reads one member after it wrote the other. A number is its 64-bit pattern.
pub record ExpDesc : Type 0 where
  pub k : ExpKind
  pub info : ℕ
  pub aux : ℕ
  pub nval : ℕ
  pub t : ℤ
  pub f : ℤ

abbrev pub Gen : Type 0 → Type 0
Gen A = FuncState → Outcome (A × FuncState)

infixl 5 ◌>>=◌ ◌>>◌
unfoldable pub ◌>>=◌ : {A B : Type 0} → Gen A → (A → Gen B) → Gen B
◌>>=◌ m f fs = elim (m fs) [ ok (a, fs') ↦ f a fs' | err e ↦ err e | stuck ↦ stuck ]

unfoldable pub ◌>>◌ : {A B : Type 0} → Gen A → Gen B → Gen B
m >> k = m >>= λ _. k

unfoldable pub return : {A : Type 0} → A → Gen A
return a fs = ok (a, fs)

unfoldable pub fail : {A : Type 0} → CodeError → Gen A
fail e fs = err e

unfoldable pub get : {A : Type 0} → (FuncState → A) → Gen A
get f fs = ok (f fs, fs)

unfoldable pub assert : Bool → Gen (Unit {0})
assert true fs = ok (tt, fs)
assert false fs = err assertion

infix 1 when◌then◌else◌
unfoldable pub when◌then◌else◌ : {A : Type 0} → Bool → Gen A → Gen A → Gen A
when true then x else y = x
when false then x else y = y

-- A change of the state by an expression
unfoldable pub modify : (FuncState → FuncState) → Gen (Unit {0})
modify f fs = ok (tt, f fs)

-- An operation on the array of code alone, such as those on lists of jumps
unfoldable pub on_code : {A : Type 0} → (List ℕ → Outcome (A × List ℕ)) → Gen A
on_code f fs = elim (f fs.code) [
  | ok (a, code) ↦ ok (a, record fs { code = code })
  | err e ↦ err e
  | stuck ↦ stuck
]

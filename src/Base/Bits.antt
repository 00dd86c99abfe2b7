-- ===== src/Base/Bits.antt =====
-- `&` and `|` at variables: a mask of low bits is a remainder, and fields combine field by field.
use Prim.Native.Nat.{ℕ, zero, suc, ◌+◌, ◌-◌, ◌*◌, ◌/◌, ◌%◌, ◌^◌, ◌≤◌, ◌<◌, min, max}
use Prim.Native.Nat.{bit_and, bit_or, digits, bit_and-bitwise, bit_or-bitwise}
use mathlib.Core.Path.{◌≡◌, refl, ap}
use mathlib.Core.Bool.{Bool, true, false}
use native.Mathlib.Omega.{arith}
use lua_5_1_source_guide.Base.Tests.{if◌then◌else◌}
use native.Mathlib.Nat.{pow-suc, one-le-pow, div-add-mod'}

module _ (rest : ℕ → ℕ) (digit : ℕ → ℕ → ℕ) where
  -- Any two numbers of rounds that reach the last digit of `a` give one result.
  digits_rounds : (a b n m : ℕ) → a ≤ n → a ≤ m → digits rest digit n a b ≡ digits rest digit m a b
  digits_rounds zero b zero zero h k = refl
  digits_rounds zero b zero (suc m) h k = refl
  digits_rounds zero b (suc n) zero h k = refl
  digits_rounds zero b (suc n) (suc m) h k = refl
  digits_rounds (suc a) b (suc n) (suc m) h k =
      rw (digits_rounds (suc a / 2) (b / 2) n m (omega arith) (omega arith))
  digits_rounds (suc a) b zero m h k = absurd (omega arith)
  digits_rounds (suc a) b n zero h k = absurd (omega arith)

bit_and_step : (a b : ℕ) → bit_and a b ≡ bit_and (a / 2) (b / 2) * 2 + min (a % 2) (b % 2)
bit_and_step zero b = rw (bit_and-bitwise 0 b, bit_and-bitwise 0 (b / 2)) (omega arith)
bit_and_step (suc a) b = ground (
  arith,
  bit_and-bitwise (suc a) b,
  bit_and-bitwise (suc a / 2) (b / 2),
  digits_rounds (λ y. zero) min (suc a / 2) (b / 2) a (suc a / 2) (omega arith) (omega arith),
)

bit_or_step : (a b : ℕ) → bit_or a b ≡ bit_or (a / 2) (b / 2) * 2 + max (a % 2) (b % 2)
bit_or_step zero b = ground (arith, bit_or-bitwise 0 b, bit_or-bitwise 0 (b / 2))
bit_or_step (suc a) b = ground (
  arith,
  bit_or-bitwise (suc a) b,
  bit_or-bitwise (suc a / 2) (b / 2),
  digits_rounds (λ y. y) max (suc a / 2) (b / 2) a (suc a / 2) (omega arith) (omega arith),
)

-- An operation that works digit by digit works field by field: `x = q * 2 ^ k + r`.
module _ (op digit : ℕ → ℕ → ℕ)
    (step : (a b : ℕ) → op a b ≡ op (a / 2) (b / 2) * 2 + digit (a % 2) (b % 2))
    (op_zero : op 0 0 ≡ 0) where
  fields :
      (k q r s t : ℕ)
      → r < 2 ^ k
      → t < 2 ^ k
      → op (q * 2 ^ k + r) (s * 2 ^ k + t) ≡ op q s * 2 ^ k + op r t
  fields zero q r s t h l = ground (arith, op_zero)
  fields (suc k) q r s t h l = ground (
    arith,
    pow-suc 2 k,
    ap (λ (x : ℕ). q * x) (pow-suc 2 k),
    ap (λ (x : ℕ). s * x) (pow-suc 2 k),
    ap (λ (x : ℕ). op q s * x) (pow-suc 2 k),
    step (q * 2 ^ suc k + r) (s * 2 ^ suc k + t),
    step r t,
    fields k q (r / 2) s (t / 2),
  )

pub bit_and-fields :
    (k q r s t : ℕ)
    → r < 2 ^ k
    → t < 2 ^ k
    → bit_and (q * 2 ^ k + r) (s * 2 ^ k + t) ≡ bit_and q s * 2 ^ k + bit_and r t
bit_and-fields = fields bit_and min bit_and_step refl

pub bit_or-fields :
    (k q r s t : ℕ)
    → r < 2 ^ k
    → t < 2 ^ k
    → bit_or (q * 2 ^ k + r) (s * 2 ^ k + t) ≡ bit_or q s * 2 ^ k + bit_or r t
bit_or-fields = fields bit_or max bit_or_step refl

pub zero-bit_and : (b : ℕ) → bit_and 0 b ≡ 0
zero-bit_and b = bit_and-bitwise 0 b

pub zero-bit_or : (b : ℕ) → bit_or 0 b ≡ b
zero-bit_or b = bit_or-bitwise 0 b

and-zero_rounds : (n a : ℕ) → a ≤ n → bit_and a 0 ≡ 0
and-zero_rounds n zero h = refl
and-zero_rounds (suc n) (suc a) h =
    omega (arith, bit_and_step (suc a) 0, and-zero_rounds n (suc a / 2) (omega arith))
and-zero_rounds zero (suc a) h = absurd (omega arith)

pub bit_and-zero : (a : ℕ) → bit_and a 0 ≡ 0
bit_and-zero a = and-zero_rounds a a (omega arith)

fits_mask : (k a : ℕ) → a < 2 ^ k → bit_and a (2 ^ k - 1) ≡ a
fits_mask zero a h = ground (arith, bit_and-zero a)
fits_mask (suc k) a h =
    ground (arith, pow-suc 2 k, bit_and_step a (2 ^ suc k - 1), fits_mask k (a / 2))

-- A mask of `k` ones keeps the remainder by `2 ^ k`.
pub low_mask : (k a : ℕ) → bit_and a (2 ^ k - 1) ≡ a % 2 ^ k
low_mask k a = ground (
  arith,
  one-le-pow k 2,
  div-add-mod' a (2 ^ k),
  bit_and-fields k (a / 2 ^ k) (a % 2 ^ k) 0 (2 ^ k - 1),
  bit_and-zero (a / 2 ^ k),
  fits_mask k (a % 2 ^ k),
)

or-zero_rounds : (n a : ℕ) → a ≤ n → bit_or a 0 ≡ a
or-zero_rounds n zero h = refl
or-zero_rounds (suc n) (suc a) h =
    omega (arith, bit_or_step (suc a) 0, or-zero_rounds n (suc a / 2) (omega arith))
or-zero_rounds zero (suc a) h = absurd (omega arith)

pub bit_or-zero : (a : ℕ) → bit_or a 0 ≡ a
bit_or-zero a = or-zero_rounds a a (omega arith)

-- `x & (ones(n) << p)`
pub keep_field : (p n x : ℕ) → bit_and x ((2 ^ n - 1) * 2 ^ p) ≡ x / 2 ^ p % 2 ^ n * 2 ^ p
keep_field p n x = ground (
  arith,
  one-le-pow p 2,
  div-add-mod' x (2 ^ p),
  bit_and-fields p (x / 2 ^ p) (x % 2 ^ p) (2 ^ n - 1) 0,
  bit_and-zero (x % 2 ^ p),
  low_mask n (x / 2 ^ p),
)

-- `x & ~(ones(n) << p)`, with `top` bits above the field
pub clear_field :
    (p n top x : ℕ)
    → bit_and x ((2 ^ top - 1) * 2 ^ n * 2 ^ p + (2 ^ p - 1))
      ≡ x / 2 ^ p / 2 ^ n % 2 ^ top * 2 ^ n * 2 ^ p + x % 2 ^ p
clear_field p n top x = ground (
  arith,
  one-le-pow p 2,
  div-add-mod' x (2 ^ p),
  bit_and-fields p (x / 2 ^ p) (x % 2 ^ p) ((2 ^ top - 1) * 2 ^ n) (2 ^ p - 1),
  keep_field n top (x / 2 ^ p),
  fits_mask p (x % 2 ^ p),
)

-- Two numbers whose fields do not overlap.
pub join_field :
    (p n hi u lo : ℕ)
    → u < 2 ^ n
    → lo < 2 ^ p
    → bit_or (hi * 2 ^ n * 2 ^ p + lo) (u * 2 ^ p) ≡ (hi * 2 ^ n + u) * 2 ^ p + lo
join_field p n hi u lo h k = ground (
  arith,
  one-le-pow p 2,
  one-le-pow n 2,
  bit_or-fields p (hi * 2 ^ n) lo u 0,
  bit_or-fields n hi 0 0 u,
  bit_or-zero hi,
  bit_or-zero lo,
  zero-bit_or u,
)

-- `(u << p) | lo`
pub or_below : (p u lo : ℕ) → lo < 2 ^ p → bit_or (u * 2 ^ p) lo ≡ u * 2 ^ p + lo
or_below p u lo h =
    ground (arith, one-le-pow p 2, bit_or-fields p u 0 0 lo, bit_or-zero u, zero-bit_or lo)

-- To decide a property of the numbers below a small limit by evaluation
module _ (test : ℕ → Bool) where
  unfoldable pub passes_below : ℕ → Bool
  passes_below zero = true
  passes_below (suc limit) = if test limit then passes_below limit else false

  pub passes_below→true : (limit i : ℕ) → passes_below limit ≡ true → i < limit → test i ≡ true
  unfolding passes_below
  passes_below→true zero i passed small = absurd (omega arith)
  passes_below→true (suc limit) i passed small = ground (arith, passes_below→true limit i)

-- Bounds that hold whatever the fields are
pub bit_or_below : (k a b : ℕ) → a < 2 ^ k → b < 2 ^ k → bit_or a b < 2 ^ k
bit_or_below zero a b h l = ground (arith, bit_or_step a b)
bit_or_below (suc k) a b h l =
    omega (arith, bit_or_step a b, bit_or_below k (a / 2) (b / 2), pow-suc 2 k)

pub bit_and_below : (k a b : ℕ) → a < 2 ^ k → bit_and a b < 2 ^ k
bit_and_below zero zero b h = omega (arith, zero-bit_and b)
bit_and_below zero (suc a) b h = absurd (omega arith)
bit_and_below (suc k) a b h =
    ground (arith, bit_and_step a b, bit_and_below k (a / 2) (b / 2), pow-suc 2 k)

-- ===== src/Object/FloatByte.antt =====
-- `luaO_int2fb` and `luaO_fb2int` (lua-5.1.5/src/lobject.c): the byte stands for the first value of
-- its form that is at least the number.
use lua_5_1_source_guide.Base.{
  ℕ, zero, suc, ◌+◌, ◌-◌, ◌*◌, ◌/◌, ◌%◌, ◌^◌, ◌<◌, ◌≤◌, ◌≡◌, refl, ap, arith, bit_or, Option, some,
  ◌⊎◌, inl, inr, Bool-cases, ltb, ◌∙◌, ◌==◌, true, Bool,
}
use lua_5_1_source_guide.Base.Bits.{low_mask, or_below, passes_below, passes_below→true}
use lua_5_1_source_guide.Object.{fb_loop, fb_pack, int2fb, fb2int}
use mathlib.Core.Option
use native.Mathlib.Decide.{dec_le}
use native.Mathlib.Nat.{pow-suc}

-- After `k` rounds the number has been rounded up to a multiple of 2 ^ k.
record Halved (x e : ℕ) (rounds : ℕ) : Type 0 where
  last : ℕ
  k : ℕ
  runs : fb_loop (suc rounds) x e ≡ some (last, e + k)
  few : k ≤ rounds
  small : last ≤ 15
  form : ((k ≡ 0) × (last ≡ x)) ⊎ (8 ≤ last)
  above : x ≤ last * 2 ^ k
  near : last * 2 ^ k + 1 ≤ x + 2 ^ k

fb_loop_halves : (rounds x e : ℕ) → x ≤ 15 * 2 ^ rounds → x < 2 ^ 31 → Halved x e rounds
unfolding fb_loop
fb_loop_halves zero x e h k = record {
  last = x;
  k = 0;
  runs = ground arith;
  few = omega arith;
  small = omega arith;
  form = inl (refl, refl);
  above = omega arith;
  near = omega arith;
}
fb_loop_halves (suc rounds) x e h w = elim (Bool-cases (ltb x 16)) [
  | inl done ↦ record {
    last = x;
    k = 0;
    runs = ground arith;
    few = omega arith;
    small = ground arith;
    form = inl (refl, refl);
    above = omega arith;
    near = omega arith;
  }
  | inr more ↦
      let half : ℕ = (x + 1) % 2 ^ 32 / 2 in
      let r = fb_loop_halves rounds half (e + 1) (omega (arith, pow-suc 2 rounds)) (omega arith) in
      let up = ap (λ (t : ℕ). r.last * t) (pow-suc 2 r.k) in
      record {
        last = r.last;
        k = suc r.k;
        runs = rw more (ground (arith, r.runs));
        few = omega (arith, r.few);
        small = r.small;
        form = ground (arith, r.form);
        above = omega (arith, r.above, up);
        near = omega (arith, r.near, up, pow-suc 2 r.k);
      }
]

fb2int_packed :
    (k x : ℕ)
    → 8 ≤ x
    → x ≤ 15
    → k ≤ 29
    → x * 2 ^ k < 2 ^ 31
    → (fb_pack (x, k) ≡ (k + 1) * 8 + (x - 8)) × (fb2int (fb_pack (x, k)) ≡ some (x * 2 ^ k))
unfolding fb2int fb_pack
fb2int_packed k x lo hi few fits =
    let e : bit_or ((k + 1) * 8) (x - 8) ≡ (k + 1) * 8 + (x - 8) =
      ground (arith, or_below 3 (k + 1) (x - 8)) in
    let k' : (k + 1) - 1 ≡ k = omega arith in
    ground (arith, e, low_mask 5 (k + 1), low_mask 3 ((k + 1) * 8 + (x - 8)), k')

fb2int_unpacked : (x : ℕ) → x ≤ 15 → (fb_pack (x, 0) ≡ x) × (fb2int x ≡ some x)
unfolding fb2int fb_pack
fb2int_unpacked x h = ground (arith, or_below 3 1 (x - 8), low_mask 5 (x / 8), low_mask 3 x)

int2fb_runs : (x : ℕ) (r : Halved x 0 29) → int2fb x ≡ some (fb_pack (r.last, r.k))
unfolding int2fb
int2fb_runs x r =
    ap (Option.map fb_pack) r.runs ∙ ap (λ (k : ℕ). some (fb_pack (r.last, k))) (omega arith)

-- What the byte of such a number gives back
fb2int_bounds :
    (x : ℕ) (r : Halved x 0 29)
    → x ≤ 2 ^ 30
    → (v : ℕ) × (fb2int (fb_pack (r.last, r.k)) ≡ some v)
      × (fb_pack (r.last, r.k) ≤ 255)
      × (x ≤ v)
      × (7 * v ≤ 8 * x)
fb2int_bounds x r h = elim (dec_le 8 r.last) [
  | yes big ↦
      let scaled : 8 * 2 ^ r.k ≤ r.last * 2 ^ r.k = grind arith in
      let p = fb2int_packed r.k r.last big r.small r.few (omega (arith, r.near, scaled)) in
      (
        r.last * 2 ^ r.k,
        p.1,
        omega (arith, p.0, r.small, r.few),
        r.above,
        omega (arith, scaled, r.near),
      )
  | no small ↦
      let (k, same) = unhalved r small in
      let p = fb2int_unpacked r.last (omega (arith, r.small)) in
      let packed : fb_pack (r.last, r.k) ≡ fb_pack (r.last, 0) =
        ap (λ (n : ℕ). fb_pack (r.last, n)) k in
      (
        r.last,
        ap fb2int (packed ∙ p.0) ∙ p.1,
        omega (arith, packed, p.0, r.small),
        omega (arith, same),
        omega (arith, same),
      )
]
  where
    unhalved : (r : Halved x 0 29) → ¬ (8 ≤ r.last) → (r.k ≡ 0) × (r.last ≡ x)
    unhalved r small = elim r.form [ inl f ↦ f | inr big ↦ absurd (small big) ]

-- For a number up to 2 ^ 30 the conversion ends in a value that fits a byte, and converting back
-- gives an `int` that is at least the number, and exceeds it by at most a seventh.
pub fb2int-int2fb :
    (x : ℕ)
    → x ≤ 2 ^ 30
    → (b v : ℕ) × (int2fb x ≡ some b) × (fb2int b ≡ some v) × (b ≤ 255) × (x ≤ v) × (7 * v ≤ 8 * x)
fb2int-int2fb x h =
    let r = fb_loop_halves 29 x 0 (omega arith) (omega arith) in
    let (v, back, fits, above, near) = fb2int_bounds x r h in
    (fb_pack (r.last, r.k), v, int2fb_runs x r, back, fits, above, near)

abbrev same_byte : ℕ → Option ℕ → Bool
same_byte b (some c) = c == b
same_byte b Option.none = Bool.false

abbrev packs_to : ℕ → Option ℕ → Bool
packs_to b (some v) = same_byte b (int2fb v)
packs_to b Option.none = Bool.false

converts_back : ℕ → Bool
converts_back b = packs_to b (fb2int b)

bytes_convert_back : passes_below converts_back 232 ≡ true
unfolding passes_below converts_back int2fb fb2int
bytes_convert_back = refl

same_byte→eq : (b : ℕ) (c : Option ℕ) → same_byte b c ≡ true → c ≡ some b
same_byte→eq b (some c) h = ground arith
same_byte→eq b Option.none h = absurd cc

packs_to→eq :
    (b : ℕ) (v : Option ℕ) → packs_to b v ≡ true → (n : ℕ) × (v ≡ some n) × (int2fb n ≡ some b)
packs_to→eq b (some v) h = (v, refl, same_byte→eq b (int2fb v) h)
packs_to→eq b Option.none h = absurd cc

converts_back→eq :
    (b : ℕ) → converts_back b ≡ true → (n : ℕ) × (fb2int b ≡ some n) × (int2fb n ≡ some b)
unfolding converts_back
converts_back→eq b h = packs_to→eq b (fb2int b) h

-- Every byte below 232, that is, of a value that fits an `int`, has such a value, and is the conversion
-- of it.
pub int2fb-fb2int : (b : ℕ) → b < 232 → (v : ℕ) × (fb2int b ≡ some v) × (int2fb v ≡ some b)
int2fb-fb2int b h = converts_back→eq b (passes_below→true converts_back 232 b bytes_convert_back h)

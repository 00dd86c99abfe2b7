-- ===== src/Object/Log.antt =====
-- `luaO_log2` and `ceillog2` (lua-5.1.5/src/lobject.c, lobject.h): the exponents of the powers of two
-- around a number.
use lua_5_1_source_guide.Base.{
  ℕ, zero, suc, ◌+◌, ◌-◌, ◌*◌, ◌/◌, ◌%◌, ◌^◌, ◌<◌, ◌≤◌, ◌≡◌, refl, ap, arith, some, Bool, true,
  false, ◌&&◌, ◌||◌, lt→ltb, ltb, ltb→lt, leb, get_or, Bool-cases, inl, inr, ◌==◌, ◌∙◌,
}
use lua_5_1_source_guide.Base.Int.{ℤ, pos, negsuc, ◌+ℤ◌, int_laws}
use lua_5_1_source_guide.Base.Bits.{passes_below, passes_below→true}
use lua_5_1_source_guide.Object.{log_2, log2_loop, log2, ceil_log2}
use native.Mathlib.Nat.{pow-suc}
use native.Mathlib.Numerals.{towards_suc}

-- One entry of the table
entry_fits : ℕ → Bool
entry_fits x =
    let k = get_or log_2 x 0 in x == 0 || (ltb 0 k && leb (2 ^ (k - 1)) x && ltb x (2 ^ k))

entries_fit : passes_below entry_fits 256 ≡ true
unfolding passes_below entry_fits log_2
entries_fit = refl

entry :
    (x : ℕ)
    → x < 256
    → 1 ≤ x
    → (0 < get_or log_2 x 0) × (2 ^ (get_or log_2 x 0 - 1) ≤ x) × (x < 2 ^ get_or log_2 x 0)
unfolding entry_fits
entry x h k = ground (arith, passes_below→true entry_fits 256 x entries_fit h)

record Floor (x rounds : ℕ) (l : ℤ) : Type 0 where
  k : ℕ
  runs : log2_loop (suc rounds) x l ≡ some (l +ℤ pos (suc k))
  below : 2 ^ k ≤ x
  above : x < 2 ^ suc k

pow_eight : (k : ℕ) → 2 ^ (k + 8) ≡ 256 * 2 ^ k
pow_eight k = simp towards_suc (omega arith)

last_round : (rounds x : ℕ) (l : ℤ) → 1 ≤ x → x < 256 → Floor x rounds l
unfolding log2_loop
last_round rounds x l low high =
    let e = entry x high low in
    let k = get_or log_2 x 0 in
    let s : k ≡ suc (k - 1) = omega (arith, e) in
    record {
      k = k - 1;
      runs = rw (lt→ltb x 256 high) (ap (λ (n : ℕ). some (l +ℤ pos n)) s);
      below = e.1;
      above = rw (← s) e.2;
    }

next_round :
    (rounds x : ℕ) (l : ℤ)
    → ltb x 256 ≡ false
    → log2_loop (suc rounds) x l ≡ log2_loop rounds (x / 2 ^ 8) (l +ℤ pos 8)
unfolding log2_loop
next_round rounds x l more = ground arith

log2_loop-Floor : (rounds x : ℕ) (l : ℤ) → 1 ≤ x → x < 256 * 256 ^ rounds → Floor x rounds l
log2_loop-Floor zero x l low h = last_round 0 x l low (omega arith)
log2_loop-Floor (suc rounds) x l low h = elim (Bool-cases (ltb x 256)) [
  | inl done ↦ last_round (suc rounds) x l low (ltb→lt x 256 done)
  | inr more ↦
      let r =
        log2_loop-Floor rounds (x / 2 ^ 8) (l +ℤ pos 8) (ground arith)
          (omega (arith, pow-suc 256 rounds)) in
      record {
        k = r.k + 8;
        runs = next_round (suc rounds) x l more ∙ r.runs ∙ ap some (omega int_laws);
        below = omega (arith, r.below, pow_eight r.k);
        above = omega (arith, r.above, pow-suc 2 r.k, pow_eight r.k, pow-suc 2 (r.k + 8));
      }
]

minus_one : (k : ℕ) → negsuc 0 +ℤ pos (suc k) ≡ pos k
minus_one k = omega int_laws

log2-loop : (x : ℕ) → log2 x ≡ log2_loop 4 x (negsuc 0)
unfolding log2
log2-loop x = refl

-- For a positive 32-bit number the loop ends, and the result is the exponent of the largest power
-- of two that does not exceed the number.
pub log2_floor :
    (x : ℕ) → 1 ≤ x → x < 2 ^ 32 → (k : ℕ) × (log2 x ≡ some (pos k)) × (2 ^ k ≤ x) × (x < 2 ^ suc k)
log2_floor x low h =
    let r = log2_loop-Floor 3 x (negsuc 0) low (omega arith) in
    (r.k, log2-loop x ∙ r.runs ∙ ap some (minus_one r.k), r.below, r.above)

-- For a number from 2 to 2 ^ 32 - 1, `ceillog2` is the exponent of the smallest power of two that is
-- at least the number.
pub ceil_log2_ceiling :
    (x : ℕ)
    → 2 ≤ x
    → x < 2 ^ 32
    → (k : ℕ) × (ceil_log2 x ≡ some (pos (suc k))) × (2 ^ k < x) × (x ≤ 2 ^ suc k)
unfolding ceil_log2 ◌+ℤ◌
ceil_log2_ceiling x low h =
    let e : (x + 2 ^ 32 - 1) % 2 ^ 32 ≡ x - 1 = omega arith in
    let (k, runs, below, above) = log2_floor (x - 1) (omega arith) (omega arith) in
    (k, rw (e, runs) (ground arith), omega arith, omega arith)

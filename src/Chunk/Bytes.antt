-- ===== src/Chunk/Bytes.antt =====
-- The memory layout that `DumpVar` and `LoadVar` copy (lua-5.1.5/src/ldump.c, lundump.c): unsigned
-- little-endian words, as on the platforms whose header has endianness 1.
use lua_5_1_source_guide.Base.{
  ℕ, zero, suc, ◌+◌, ◌*◌, ◌/◌, ◌%◌, ◌^◌, ◌<◌, ◌≡◌, refl, ap, ap₂, ◌∙◌, arith, List, [], ◌∷◌, ◌++◌,
  length, take, drop, length-append, take-length_append, drop-length_append, All,
}
use native.Mathlib.Nat.{pow-suc}

unfoldable pub le_bytes : ℕ → ℕ → List ℕ
le_bytes zero x = []
le_bytes (suc w) x = (x % 256) ∷ le_bytes w (x / 256)

unfoldable pub of_le_bytes : List ℕ → ℕ
of_le_bytes [] = 0
of_le_bytes (b ∷ bs) = b + 256 * of_le_bytes bs

-- An array of words of `w` bytes
unfoldable pub word_bytes : ℕ → List ℕ → List ℕ
word_bytes w [] = []
word_bytes w (x ∷ xs) = le_bytes w x ++ word_bytes w xs

unfoldable pub of_word_bytes : ℕ → ℕ → List ℕ → List ℕ
of_word_bytes w zero bs = []
of_word_bytes w (suc n) bs = of_le_bytes (take w bs) ∷ of_word_bytes w n (drop w bs)

pub length-le_bytes : (w x : ℕ) → length (le_bytes w x) ≡ w
unfolding le_bytes
length-le_bytes zero x = refl
length-le_bytes (suc w) x = ap suc (length-le_bytes w (x / 256))

pub of_le_bytes-le_bytes : (w x : ℕ) → x < 256 ^ w → of_le_bytes (le_bytes w x) ≡ x
unfolding le_bytes of_le_bytes
of_le_bytes-le_bytes zero x h = omega arith
of_le_bytes-le_bytes (suc w) x h = ground (arith, of_le_bytes-le_bytes w (x / 256), pow-suc 256 w)

pub length-word_bytes : (w : ℕ) (xs : List ℕ) → length (word_bytes w xs) ≡ length xs * w
unfolding word_bytes
length-word_bytes w [] = omega arith
length-word_bytes w (x ∷ xs) = omega (
  arith,
  length-append (le_bytes w x) (word_bytes w xs),
  length-le_bytes w x,
  length-word_bytes w xs,
)

take-word : (w x : ℕ) (bs : List ℕ) → take w (le_bytes w x ++ bs) ≡ le_bytes w x
take-word w x bs =
    ap (λ (n : ℕ). take n (le_bytes w x ++ bs)) (omega (arith, length-le_bytes w x))
    ∙ take-length_append (le_bytes w x) bs

drop-word : (w x : ℕ) (bs : List ℕ) → drop w (le_bytes w x ++ bs) ≡ bs
drop-word w x bs =
    ap (λ (n : ℕ). drop n (le_bytes w x ++ bs)) (omega (arith, length-le_bytes w x))
    ∙ drop-length_append (le_bytes w x) bs

pub of_word_bytes-word_bytes :
    (w : ℕ) (xs : List ℕ)
    → All (λ x. x < 256 ^ w) xs
    → of_word_bytes w (length xs) (word_bytes w xs) ≡ xs
unfolding word_bytes of_word_bytes
of_word_bytes-word_bytes w [] h = refl
of_word_bytes-word_bytes w (x ∷ xs) h =
    ap₂ ◌∷◌ (ap of_le_bytes (take-word w x (word_bytes w xs)) ∙ of_le_bytes-le_bytes w x h.0) (
      ap (of_word_bytes w (length xs)) (drop-word w x (word_bytes w xs))
      ∙ of_word_bytes-word_bytes w xs h.1)

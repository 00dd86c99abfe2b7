-- ===== src/Pattern/Plain.antt =====
-- The search for a plain string, `lmemfind` of lua-5.1.5/src/lstrlib.c, against the search that tries
-- every place.
use lua_5_1_source_guide.Base.{
  ℕ, zero, suc, ◌+◌, ◌-◌, ◌≤◌, ◌<◌, ◌≡◌, refl, sym, ap, subst, ◌∙◌, arith, List, [], ◌∷◌, Option,
  none, some, Bool, true, false, ◌&&◌, ltb, ◌==◌, if◌then◌else◌, length, take, drop, length-drop,
  Bool-cases, Option-cases, inl, inr,
}
use lua_5_1_source_guide.Chunk.Header.{bytes_eq}
use lua_5_1_source_guide.Pattern.Search.{find_byte, search_loop, lmemfind}

unfoldable pub starts : List ℕ → List ℕ → Bool
starts [] s = true
starts (c ∷ p) [] = false
starts (c ∷ p) (x ∷ s) = x == c && starts p s

abbrev pub shift : ℕ → Option ℕ → Option ℕ
shift n none = none
shift n (some i) = some (n + i)

-- The first place where `p` begins
unfoldable pub first_at : List ℕ → List ℕ → Option ℕ
first_at p [] = if starts p [] then some 0 else none
first_at p (x ∷ s) =
    let later = shift 1 (first_at p s) in if starts p (x ∷ s) then some 0 else later

starts-take : (p s : List ℕ) → bytes_eq (take (length p) s) p ≡ starts p s
unfolding bytes_eq starts
starts-take [] s = refl
starts-take (c ∷ p) [] = refl
starts-take (c ∷ p) (x ∷ s) = rw (starts-take p s)

starts_short : (p s : List ℕ) → length s < length p → starts p s ≡ false
unfolding starts
starts_short [] s h = absurd (omega arith)
starts_short (c ∷ p) [] h = refl
starts_short (c ∷ p) (x ∷ s) h = ground (arith, starts_short p s)

first_short : (p s : List ℕ) → length s < length p → first_at p s ≡ none
unfolding first_at
first_short p [] h = rw (starts_short p [] h)
first_short p (x ∷ s) h = rw (starts_short p (x ∷ s) h, first_short p s (omega (arith, h))) refl

shift_zero : (o : Option ℕ) → shift 0 o ≡ o
shift_zero none = refl
shift_zero (some i) = ap some (omega arith)

shift-shift : (m n : ℕ) (o : Option ℕ) → shift m (shift n o) ≡ shift (m + n) o
shift-shift m n none = refl
shift-shift m n (some i) = ap some (omega arith)

some_inj : {i j : ℕ} → some i ≡ some j → i ≡ j
some_inj {i = i} e = ap (λ (o : Option ℕ). elim o [ none ↦ i | some k ↦ k ]) e

find_same : (l c x : ℕ) (s : List ℕ) → (x == c) ≡ true → find_byte (suc l) c (x ∷ s) ≡ some 0
unfolding find_byte
find_same l c x s e = rw e refl

find_none :
    (l c x : ℕ) (s : List ℕ)
    → (x == c) ≡ false
    → find_byte l c s ≡ none
    → find_byte (suc l) c (x ∷ s) ≡ none
unfolding find_byte
find_none l c x s e f = rw (e, f) refl

find_later :
    (l c x j : ℕ) (s : List ℕ)
    → (x == c) ≡ false
    → find_byte l c s ≡ some j
    → find_byte (suc l) c (x ∷ s) ≡ some (suc j)
unfolding find_byte
find_later l c x j s e f = rw (e, f) refl

module _ (c : ℕ) (tail : List ℕ) where
  first_other :
      (x : ℕ) (s : List ℕ)
      → (x == c) ≡ false
      → first_at (c ∷ tail) (x ∷ s) ≡ shift 1 (first_at (c ∷ tail) s)
  unfolding first_at starts
  first_other x s e = rw e refl

  -- Before the first byte `c`, the pattern does not begin.
  abbrev Skips : List ℕ → ℕ → Type 0
  Skips s i =
      (first_at (c ∷ tail) s ≡ shift i (first_at (c ∷ tail) (c ∷ drop (suc i) s))) × (i < length s)

  skip : (s : List ℕ) (l i : ℕ) → l ≡ length s - length tail → find_byte l c s ≡ some i → Skips s i
  unfolding find_byte
  skip s zero i h e = cc
  skip [] (suc l) i h e = cc
  skip (x ∷ s) (suc l) i h e = elim (Bool-cases (x == c)) [
    | inl same ↦
        let here : 0 ≡ i = some_inj (sym (find_same l c x s same) ∙ e) in
        let equal : x ≡ c = ground arith in
        subst (Skips (x ∷ s)) here (
          ap (λ (z : ℕ). first_at (c ∷ tail) (z ∷ s)) equal
              ∙ sym (shift_zero (first_at (c ∷ tail) (c ∷ s))),
          omega arith,
        )
    | inr other ↦ elim (Option-cases (find_byte l c s)) [
      | inl nowhere ↦ cc (find_none l c x s other nowhere)
      | inr (j, later) ↦
          let here : suc j ≡ i = some_inj (sym (find_later l c x j s other later) ∙ e) in
          let rest = skip s l j (omega (arith, h)) later in
          subst (Skips (x ∷ s)) here (
            first_other x s other
                ∙ ap (shift 1) rest.0
                ∙ shift-shift 1 j _
                ∙ ap (λ (k : ℕ). shift k (first_at (c ∷ tail) (c ∷ drop (suc j) s))) (omega arith),
            omega (arith, rest.1),
          )
    ]
  ]

  absent :
      (s : List ℕ) (l : ℕ)
      → l ≡ length s - length tail
      → find_byte l c s ≡ none
      → first_at (c ∷ tail) s ≡ none
  absent s zero h e = first_short (c ∷ tail) s (omega arith)
  absent [] (suc l) h e = absurd (omega arith)
  absent (x ∷ s) (suc l) h e = elim (Bool-cases (x == c)) [
    | inl same ↦ cc (find_same l c x s same)
    | inr other ↦ elim (Option-cases (find_byte l c s)) [
      | inl nowhere ↦ first_other x s other ∙ ap (shift 1) (absent s l (omega (arith, h)) nowhere)
      | inr (j, later) ↦ cc (find_later l c x j s other later)
    ]
  ]

  search_absent :
      (rounds at l : ℕ) (s : List ℕ)
      → find_byte l c s ≡ none
      → search_loop (suc rounds) at s l c tail ≡ none
  unfolding search_loop
  search_absent rounds at l s e = rw (e, search_loop) refl

  search_hit :
      (rounds at l i : ℕ) (s : List ℕ)
      → find_byte l c s ≡ some i
      → bytes_eq (take (length tail) (drop (i + 1) s)) tail ≡ true
      → search_loop (suc rounds) at s l c tail ≡ some (at + i)
  unfolding search_loop
  search_hit rounds at l i s e f = rw (e, search_loop, f) refl

  search_more :
      (rounds at l i : ℕ) (s : List ℕ)
      → find_byte l c s ≡ some i
      → bytes_eq (take (length tail) (drop (i + 1) s)) tail ≡ false
      → search_loop (suc rounds) at s l c tail
        ≡ search_loop rounds (at + (i + 1)) (drop (i + 1) s) (l - (i + 1)) c tail
  unfolding search_loop
  search_more rounds at l i s e f = rw (e, search_loop, f) refl

  first_hit :
      (s : List ℕ)
      → bytes_eq (take (length tail) s) tail ≡ true
      → first_at (c ∷ tail) (c ∷ s) ≡ some 0
  unfolding first_at starts
  first_hit s e = ground (arith, starts-take tail s)

  first_more :
      (s : List ℕ)
      → bytes_eq (take (length tail) s) tail ≡ false
      → first_at (c ∷ tail) (c ∷ s) ≡ shift 1 (first_at (c ∷ tail) s)
  unfolding first_at starts
  first_more s e = ground (arith, starts-take tail s)

  search_loop-first_at :
      (rounds at l : ℕ) (s : List ℕ)
      → l ≤ rounds
      → l ≡ length s - length tail
      → search_loop rounds at s l c tail ≡ shift at (first_at (c ∷ tail) s)
  unfolding search_loop
  search_loop-first_at zero at l s r h =
      ap (shift at) (sym (first_short (c ∷ tail) s (omega (arith, r, h))))
  search_loop-first_at (suc rounds) at l s r h = elim (Option-cases (find_byte l c s)) [
    | inl nowhere ↦ search_absent rounds at l s nowhere ∙ ap (shift at) (sym (absent s l h nowhere))
    | inr (i, here) ↦
        let (skip_i, inside) = skip s l i h here in
        let past : suc i ≡ i + 1 = omega arith in
        let skips =
          subst (λ (k : ℕ). first_at (c ∷ tail) s ≡ shift i (first_at (c ∷ tail) (c ∷ drop k s)))
            past skip_i in
        let rest = drop (i + 1) s in
        elim (Bool-cases (bytes_eq (take (length tail) rest) tail)) [
          | inl begins ↦
              let same : i ≡ i + 0 = omega arith in
              search_hit rounds at l i s here begins
              ∙ ap (λ (k : ℕ). some (at + k)) same
              ∙ ap (shift at) (sym (skips ∙ ap (shift i) (first_hit rest begins)))
          | inr other ↦
              search_more rounds at l i s here other
              ∙ search_loop-first_at rounds (at + (i + 1)) (l - (i + 1)) rest (omega (arith, r))
                  (omega (arith, h, length-drop (i + 1) s))
              ∙ sym (
                  ap (shift at) (skips ∙ ap (shift i) (first_more rest other) ∙ shift-shift i 1 _)
                  ∙ shift-shift at (i + 1) _)
        ]
  ]

-- `lmemfind` gives the first place of the string where the pattern begins, and none if there is no such
-- place.
pub lmemfind-first_at : (s p : List ℕ) → lmemfind s p ≡ first_at p s
unfolding lmemfind first_at starts
lmemfind-first_at [] [] = refl
lmemfind-first_at (x ∷ s) [] = refl
lmemfind-first_at s (c ∷ tail) = elim (Bool-cases (ltb (length s) (length tail + 1))) [
  | inl short ↦ rw short (sym (first_short (c ∷ tail) s (ground arith)))
  | inr long ↦ rw long (
      search_loop-first_at c tail (length s) 0 (length s - length tail) s (omega arith) refl
      ∙ shift_zero _)
]

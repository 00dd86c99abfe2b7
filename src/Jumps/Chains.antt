-- ===== src/Jumps/Chains.antt =====
-- A list of jumps (lua-5.1.5/src/lcode.c) as the list of its places.
use lua_5_1_source_guide.Base.{
  ℕ, zero, suc, ◌+◌, ◌≤◌, ◌<◌, ◌≡◌, refl, sym, ap, subst, ◌∙◌, arith, List, [], ◌∷◌, ltb, ◌==◌,
  if◌then◌else◌, length, All, Bool-cases, inl, inr,
}
use lua_5_1_source_guide.Base.Int.{ℤ, pos, pos_part}
use lua_5_1_source_guide.Jumps.{no_jump, getjump}

-- From `list`, the links of `code` lead through the places `xs`, and then to the end.
abbrev pub ListOf : List ℕ → ℤ → List ℕ → Type 0
ListOf code list [] = list ≡ no_jump
ListOf code list (x ∷ xs) = (list ≡ pos x) × (x < length code) × ListOf code (getjump code x) xs

unfoldable pub count : ℕ → List ℕ → ℕ
count a [] = 0
count a (x ∷ xs) = let rest = count a xs in if x == a then suc rest else rest

-- No place of one is a place of the other.
abbrev pub Apart : List ℕ → List ℕ → Type 0
Apart xs ys = All (λ (x : ℕ). count x ys ≡ 0) xs

pos_inj : {a b : ℕ} → pos a ≡ pos b → a ≡ b
pos_inj e = ap pos_part e

-- The links determine the list.
length-ListOf :
    (code : List ℕ) (list : ℤ) (xs ys : List ℕ)
    → ListOf code list xs
    → ListOf code list ys
    → length xs ≡ length ys
length-ListOf code list [] [] h k = refl
length-ListOf code list [] (y ∷ ys) h k = cc
length-ListOf code list (x ∷ xs) [] h k = cc
length-ListOf code list (x ∷ xs) (y ∷ ys) h k =
    let same : y ≡ x = pos_inj (sym k.0 ∙ h.0) in
    ap suc (
      length-ListOf code (getjump code x) xs ys h.2
        (subst (λ (z : ℕ). ListOf code (getjump code z) ys) same k.2))

-- Where a place occurs in a list, the list goes on from it.
occurs :
    (code : List ℕ) (a : ℕ) (list : ℤ) (xs : List ℕ)
    → ListOf code list xs
    → 0 < count a xs
    → (zs : List ℕ) × ListOf code (pos a) zs × (length zs ≤ length xs)
unfolding count
occurs code a list [] h k = absurd (omega arith)
occurs code a list (x ∷ xs) h k = elim (Bool-cases (x == a)) [
  | inl same ↦
      let e : x ≡ a = ground arith in
      (x ∷ xs, subst (λ (z : ℕ). ListOf code (pos z) (x ∷ xs)) e (refl, h.1, h.2), omega arith)
  | inr other ↦
      let rest = occurs code a (getjump code x) xs h.2 (ground (arith, k, other)) in
      (rest.0, rest.1, omega (arith, rest.2))
]

pub count-head :
    (code : List ℕ) (list : ℤ) (x : ℕ) (xs : List ℕ) → ListOf code list (x ∷ xs) → count x xs ≡ 0
count-head code list x xs h = elim (Bool-cases (ltb 0 (count x xs))) [
  | inl again ↦
      let rest = occurs code x (getjump code x) xs h.2 (ground arith) in
      let same = length-ListOf code (pos x) rest.0 (x ∷ xs) rest.1 (refl, h.1, h.2) in
      omega (arith, same, rest.2)
  | inr once ↦ ground arith
]

count-ListOf :
    (code : List ℕ) (list : ℤ) (a : ℕ) (xs : List ℕ) → ListOf code list xs → count a xs ≤ 1
unfolding count
count-ListOf code list a [] h = omega arith
count-ListOf code list a (x ∷ xs) h = elim (Bool-cases (x == a)) [
  | inl same ↦
      let e : x ≡ a = ground arith in
      let once = subst (λ (z : ℕ). count z xs ≡ 0) e (count-head code list x xs h) in
      rw same (omega (arith, once))
  | inr other ↦ rw other (count-ListOf code (getjump code x) a xs h.2)
]

-- How many places lie below a bound
unfoldable total : ℕ → List ℕ → ℕ
total zero xs = 0
total (suc n) xs = count n xs + total n xs

total-[] : (n : ℕ) → total n [] ≡ 0
unfolding total count
total-[] zero = refl
total-[] (suc n) = omega (arith, total-[] n)

total-cons : (n x : ℕ) (xs : List ℕ) → total n (x ∷ xs) ≡ total n xs + (if ltb x n then 1 else 0)
unfolding total count
total-cons zero x xs = ground arith
total-cons (suc n) x xs = ground (arith, total-cons n x xs)

total-ListOf :
    (code : List ℕ) (list : ℤ) (n : ℕ) (xs : List ℕ) → ListOf code list xs → total n xs ≤ n
unfolding total
total-ListOf code list zero xs h = omega arith
total-ListOf code list (suc n) xs h =
    omega (arith, count-ListOf code list n xs h, total-ListOf code list n xs h)

total-length :
    (code : List ℕ) (list : ℤ) (xs : List ℕ)
    → ListOf code list xs
    → total (length code) xs ≡ length xs
total-length code list [] h = total-[] (length code)
total-length code list (x ∷ xs) h =
    ground (arith, total-cons (length code) x xs, total-length code (getjump code x) xs h.2, h.1)

-- A list has no more elements than the code has instructions.
pub length-bound :
    (code : List ℕ) (list : ℤ) (xs : List ℕ) → ListOf code list xs → length xs ≤ length code
length-bound code list xs h =
    omega (arith, total-ListOf code list (length code) xs h, total-length code list xs h)

-- ===== src/Jumps/Joined.antt =====
-- `luaK_concat` (lua-5.1.5/src/lcode.c) appends one list of jumps to another.
use lua_5_1_source_guide.Base.{
  ℕ, zero, suc, ◌≤◌, ◌<◌, ◌≡◌, ◌≢◌, refl, sym, ap, subst, ◌∙◌, arith, List, [], ◌∷◌, ◌++◌, ◌==◌,
  length, All, All-map, append-nil, Bool-cases, inl, inr,
}
use lua_5_1_source_guide.Base.Int.{ℤ, pos}
use lua_5_1_source_guide.Opcodes.{get_opcode}
use lua_5_1_source_guide.Code.State.{Outcome, ok}
use lua_5_1_source_guide.Jumps.{no_jump, at, getjump, walk_on, keep_first, append_loop, concat}
use lua_5_1_source_guide.Jumps.Links.{Fixed, getjump-fixjump}
use lua_5_1_source_guide.Jumps.Words.{AllWords, at_word}
use lua_5_1_source_guide.Jumps.Chains.{ListOf, count, Apart, count-head, length-bound}

-- A change of the links at places of `xs` alone
pub record Relinked (xs code code' : List ℕ) : Type 0 where
  pub same_length : length code' ≡ length code
  pub elsewhere : (j : ℕ) → count j xs ≡ 0 → at code' j ≡ at code j
  pub opcodes : (j : ℕ) → get_opcode (at code' j) ≡ get_opcode (at code j)

pub getjump-same :
    (code code' : List ℕ) (x : ℕ) → at code' x ≡ at code x → getjump code' x ≡ getjump code x
unfolding getjump
getjump-same code code' x e = rw e

-- A list none of whose places changed is still the list.
pub ListOf-kept :
    (code code' : List ℕ) (list : ℤ) (xs : List ℕ)
    → length code' ≡ length code
    → All (λ (x : ℕ). at code' x ≡ at code x) xs
    → ListOf code list xs
    → ListOf code' list xs
ListOf-kept code code' list [] l h k = k
ListOf-kept code code' list (x ∷ xs) l h k = (
  k.0,
  omega (arith, k.1, l),
  ListOf-kept code code' (getjump code' x) xs l h.1
      (subst (λ (z : ℤ). ListOf code z xs) (sym (getjump-same code code' x h.0)) k.2),
)

-- A place that is not among some others
pub spare : (p x : ℕ) (xs : List ℕ) → count p (x ∷ xs) ≡ 0 → (x ≢ p) × (count p xs ≡ 0)
unfolding count
spare p x xs h = elim (Bool-cases (x == p)) [
  | inl same ↦ absurd (ground arith)
  | inr other ↦ ground arith
]

pub All-spare : (p : ℕ) (xs : List ℕ) → count p xs ≡ 0 → All (λ (x : ℕ). p ≢ x) xs
All-spare p [] h = tt
All-spare p (x ∷ xs) h = let s = spare p x xs h in (λ e. s.0 (sym e), All-spare p xs s.1)

walk_on-end :
    (z : ℤ) (a : Outcome (List ℕ)) (f : ℕ → Outcome (List ℕ)) → z ≡ no_jump → walk_on z a f ≡ a
unfolding walk_on
walk_on-end z a f e = rw e refl

walk_on-next :
    (z : ℤ) (n : ℕ) (a : Outcome (List ℕ)) (f : ℕ → Outcome (List ℕ))
    → z ≡ pos n
    → walk_on z a f ≡ f n
unfolding walk_on
walk_on-next z n a f e = rw e refl

Linked : (rounds : ℕ) (code : List ℕ) (x l2 : ℕ) (xs ys : List ℕ) → Type 0
Linked rounds code x l2 xs ys =
    (code' : List ℕ) × (append_loop rounds code x l2 ≡ ok code')
    × ListOf code' (pos x) (x ∷ xs ++ ys)
    × Relinked (x ∷ xs) code code'

Fixed-opcodes :
    {code code' : List ℕ} {x y : ℕ}
    → Fixed code code' x y
    → (j : ℕ) → get_opcode (at code' j) ≡ get_opcode (at code j)
Fixed-opcodes {code = code} {code' = code'} {x = x} fixed j = elim (Bool-cases (x == j)) [
  | inl same ↦
      subst (λ (z : ℕ). get_opcode (at code' z) ≡ get_opcode (at code z)) (ground arith)
        fixed.opcode
  | inr other ↦ ap get_opcode (fixed.elsewhere j (ground arith))
]

link_last :
    (rounds : ℕ) (code : List ℕ) (x y : ℕ) (ys : List ℕ)
    → length code ≤ 131071
    → AllWords code
    → ListOf code (pos x) (x ∷ [])
    → ListOf code (pos y) (y ∷ ys)
    → Apart (x ∷ []) (y ∷ ys)
    → Linked (suc rounds) code x y [] (y ∷ ys)
unfolding append_loop Linked
link_last rounds code x y ys s w h k a =
    let ne = spare x y ys a.0 in
    let (code', runs, fixed) =
      getjump-fixjump code x y h.1 (at_word code x w) ne.0 (omega (arith, k.1))
        (omega (arith, h.1)) in
    let same =
      All-map (λ (j : ℕ). x ≢ j) (λ (j : ℕ). at code' j ≡ at code j) (y ∷ ys) fixed.elsewhere
        (All-spare x (y ∷ ys) a.0) in
    (
      code',
      walk_on-end (getjump code x) _ _ h.2 ∙ runs,
      (
        refl,
        omega (arith, h.1, fixed.same_length),
        subst (λ (z : ℤ). ListOf code' z (y ∷ ys)) (sym fixed.link)
            (ListOf-kept code code' (pos y) (y ∷ ys) fixed.same_length same k),
      ),
      record {
        same_length = fixed.same_length;
        elsewhere = λ j out. fixed.elsewhere j (spare j x [] out).0;
        opcodes = Fixed-opcodes fixed;
      },
    )

link_more :
    (rounds : ℕ) (code : List ℕ) (x y l2 : ℕ) (xs ys : List ℕ)
    → ListOf code (pos x) (x ∷ y ∷ xs)
    → Linked rounds code y l2 xs ys
    → Linked (suc rounds) code x l2 (y ∷ xs) ys
unfolding append_loop Linked
link_more rounds code x y l2 xs ys h (code', runs, list, rest) = (
  code',
  walk_on-next (getjump code x) y _ _ h.2.0 ∙ runs,
  (
    refl,
    omega (arith, h.1, rest.same_length),
    subst (λ (z : ℤ). ListOf code' z (y ∷ xs ++ ys))
        (sym (
          getjump-same code code' x (rest.elsewhere x (count-head code (pos x) x (y ∷ xs) h))
          ∙ h.2.0))
        list,
  ),
  record {
    same_length = rest.same_length;
    elsewhere = λ j out. rest.elsewhere j (spare j x (y ∷ xs) out).1;
    opcodes = rest.opcodes;
  },
)

append :
    (rounds : ℕ) (code : List ℕ) (x y : ℕ) (xs ys : List ℕ)
    → length xs < rounds
    → length code ≤ 131071
    → AllWords code
    → ListOf code (pos x) (x ∷ xs)
    → ListOf code (pos y) (y ∷ ys)
    → Apart (x ∷ xs) (y ∷ ys)
    → Linked rounds code x y xs (y ∷ ys)
append zero code x y xs ys r s w h k a = absurd (omega arith)
append (suc rounds) code x y [] ys r s w h k a = link_last rounds code x y ys s w h k a
append (suc rounds) code x y (x₂ ∷ xs) ys r s w h k a = link_more rounds code x x₂ y xs (y ∷ ys) h (
    append rounds code x₂ y xs ys (omega (arith, r)) s w
      (subst (λ (z : ℤ). ListOf code z (x₂ ∷ xs)) h.2.0 h.2) k a.1)

-- The outcome of joining lists of the places `xs` and `ys`
pub record Joined (xs ys code : List ℕ) (r : ℤ × List ℕ) : Type 0 where
  pub list : ListOf r.1 r.0 (xs ++ ys)
  pub relinked : Relinked xs code r.1

abbrev Joins : List ℕ → ℤ → ℤ → List ℕ → List ℕ → Type 0
Joins code l1 l2 xs ys =
    (r : ℤ × List ℕ) × (concat (suc (length code)) code l1 l2 ≡ ok r) × Joined xs ys code r

unchanged : (xs code : List ℕ) → Relinked xs code code
unchanged xs code = record { same_length = refl; elsewhere = λ j out. refl; opcodes = λ j. refl }

join_two :
    (code : List ℕ) (x y : ℕ) (xs ys : List ℕ)
    → length code ≤ 131071
    → AllWords code
    → ListOf code (pos x) (x ∷ xs)
    → ListOf code (pos y) (y ∷ ys)
    → Apart (x ∷ xs) (y ∷ ys)
    → Joins code (pos x) (pos y) (x ∷ xs) (y ∷ ys)
unfolding concat Linked keep_first
join_two code x y xs ys s w h k a =
    let (code', runs, list, rest) =
      append (suc (length code)) code x y xs ys
        (omega (arith, length-bound code (pos x) (x ∷ xs) h)) s w h k a in
    ((pos x, code'), ap (keep_first x) runs, record { list = list; relinked = rest })

-- In a code of at most 131071 words, `luaK_concat` of two lists of jumps without a common place is
-- defined within the rounds of one walk along the code: the list it gives has the places of the first
-- list and then those of the second, no opcode changes, and no word at another place than those of the first list changes.
pub concat-Joined :
    (code : List ℕ) (l1 l2 : ℤ) (xs ys : List ℕ)
    → length code ≤ 131071
    → AllWords code
    → ListOf code l1 xs
    → ListOf code l2 ys
    → Apart xs ys
    → (r : ℤ × List ℕ) × (concat (suc (length code)) code l1 l2 ≡ ok r) × Joined xs ys code r
unfolding concat
concat-Joined code l1 l2 [] [] s w h k a =
    subst (λ (z : ℤ). Joins code z l2 [] []) (sym h)
      (subst (λ (z : ℤ). Joins code no_jump z [] []) (sym k)
        ((no_jump, code), refl, record { list = refl; relinked = unchanged [] code }))
concat-Joined code l1 l2 [] (y ∷ ys) s w h k a =
    subst (λ (z : ℤ). Joins code z l2 [] (y ∷ ys)) (sym h)
      (subst (λ (z : ℤ). Joins code no_jump z [] (y ∷ ys)) (sym k.0)
        ((pos y, code), refl, record { list = (refl, k.1, k.2); relinked = unchanged [] code }))
concat-Joined code l1 l2 (x ∷ xs) [] s w h k a =
    subst (λ (z : ℤ). Joins code z l2 (x ∷ xs) []) (sym h.0)
      (subst (λ (z : ℤ). Joins code (pos x) z (x ∷ xs) []) (sym k)
        (
          (pos x, code),
          refl,
          record {
            list =
                subst (λ (zs : List ℕ). ListOf code (pos x) zs) (sym (append-nil (x ∷ xs)))
                  (refl, h.1, h.2);
            relinked = unchanged (x ∷ xs) code;
          },
        ))
concat-Joined code l1 l2 (x ∷ xs) (y ∷ ys) s w h k a =
    subst (λ (z : ℤ). Joins code z l2 (x ∷ xs) (y ∷ ys)) (sym h.0)
      (subst (λ (z : ℤ). Joins code (pos x) z (x ∷ xs) (y ∷ ys)) (sym k.0)
        (join_two code x y xs ys s w (refl, h.1, h.2) (refl, k.1, k.2) a))

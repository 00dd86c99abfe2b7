-- ===== src/Tests/Arrays.antt =====
-- Lengths and sizes of tables (lua-5.1.5/src/ltable.c).
use lua_5_1_source_guide.Base.{
  Bool, ℕ, zero, suc, ◌+◌, ◌^◌, ◌≤◌, ◌≡◌, ◌⊎◌, refl, arith, List, [], ◌∷◌, none, some, false, ◌==◌,
}
use native.Mathlib.Nat.{pow-le-pow_right}
use lua_5_1_source_guide.Tables.{dummynode, find_number, hashnum, Table, is_nil, getnum, getn}
use lua_5_1_source_guide.Tables.Length.{getn-IsBoundary}
use lua_5_1_source_guide.Tables.Sizes.{
  computesizes, keys_up_to, Counts, Optimal, computesizes-Optimal,
}

-- Two elements in the array part, one more in the hash part
abbrev three : Table ℕ
three = record {
  array = some 7 ∷ some 8 ∷ [];
  node = record { i_val = some 9; number_key = some 3; next = none } ∷ dummynode ∷ [];
  is_dummy = false;
}

-- Patterns that stand for themselves
abbrev same : ℕ → ℕ
same n = n

abbrev eq : ℕ → ℕ → Bool
eq a b = a == b

getn-IsBoundary_example :
    (n : ℕ) × (getn eq same 9 three ≡ some n)
    × ((n ≡ 0) ⊎ (is_nil (getnum eq same three n) ≡ false))
    × (getnum eq same three (n + 1) ≡ none)
unfolding getnum find_number hashnum
getn-IsBoundary_example =
    getn-IsBoundary eq same three 9 4 (omega arith) (λ e. absurd cc) (omega arith) (omega arith)
      refl

-- The keys 1, 2 and 3
abbrev counts : List ℕ
counts = 1 ∷ 1 ∷ 1 ∷ []

at_most_three : (k : ℕ) → keys_up_to counts k ≤ 3
unfolding keys_up_to
at_most_three zero = omega arith
at_most_three (suc zero) = omega arith
at_most_three (suc (suc zero)) = omega arith
at_most_three (suc (suc (suc k))) = omega (arith, at_most_three (suc (suc k)))

enough_numbers : (k : ℕ) → keys_up_to counts k ≤ 2 ^ k
unfolding keys_up_to
enough_numbers zero = omega arith
enough_numbers (suc zero) = omega arith
enough_numbers (suc (suc k)) =
    let more : 2 ≤ suc (suc k) = omega arith in
    let four : 2 ^ 2 ≤ 2 ^ suc (suc k) = pow-le-pow_right (omega arith) more in
    omega (arith, at_most_three (suc (suc k)), four)

counts-Counts : Counts counts 3
counts-Counts = record { distinct = enough_numbers; all = at_most_three }

computesizes-Optimal_example :
    (n : ℕ) × (na : ℕ) × (computesizes counts 3 ≡ some (n, na)) × Optimal counts n na
computesizes-Optimal_example = computesizes-Optimal counts 3 counts-Counts (omega arith)

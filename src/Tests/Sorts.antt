-- ===== src/Tests/Sorts.antt =====
-- Tables sorted by lua-5.1.5/src/ltablib.c.
use lua_5_1_source_guide.Base.{
  ℕ, ◌≡◌, refl, arith, List, [], ◌∷◌, Option, some, Bool, not, ◌&&◌, ltb, ◌==◌, get_or, Bool-cases,
  inl, inr, map,
}
use lua_5_1_source_guide.Sorting.{
  Outcome, ok, err, fault, ◌>>=◌, set2, sort_comp, scan_up, scan_down, partition, split, sort,
}
use lua_5_1_source_guide.Sorting.Shuffle.{Shuffle}
use lua_5_1_source_guide.Sorting.Scans.{pure}
use lua_5_1_source_guide.Sorting.Pieces.{IsOrder}
use lua_5_1_source_guide.Sorting.Sorted.{IsSorted}
use lua_5_1_source_guide.Sorting.Total.{sort-IsSorted}

abbrev numbers : ℕ → ℕ
numbers k = get_or (0 ∷ 5 ∷ 3 ∷ 9 ∷ 1 ∷ 7 ∷ []) k 0

below-IsOrder : IsOrder ltb
below-IsOrder = record {
  asym = λ a b h. ground arith;
  cotrans =
      λ a b c h. elim (Bool-cases (ltb a b)) [ inl e ↦ inl e | inr e ↦ inr (ground (arith, e)) ];
}

sort-IsSorted_example :
    (table : ℕ → ℕ) × (sort (pure ltb) numbers 5 ≡ ok table)
    × IsSorted ltb table 1 5
    × Shuffle 1 5 numbers table
sort-IsSorted_example = sort-IsSorted ltb below-IsOrder numbers 5

-- An "order" that holds for any two values that are not nil (0 here)
abbrev wild : ℕ → ℕ → Option Bool
wild a b = some (not (a == 0) && not (b == 0))

abbrev four : ℕ → ℕ
four k = get_or (0 ∷ 2 ∷ 4 ∷ 3 ∷ 1 ∷ []) k 0

abbrev shown : Outcome ((ℕ → ℕ) × ℕ) → List ℕ
shown (ok (t, i)) = map t (1 ∷ 2 ∷ 3 ∷ 4 ∷ 5 ∷ [])
shown (err e) = []
shown fault = []

-- The scan passes the end of the array, and the swap behind it puts the pivot into place 5 of four.
outside : shown (split wild four 1 4 2) ≡ 2 ∷ 3 ∷ 0 ∷ 1 ∷ 4 ∷ []
unfolding split partition scan_up scan_down sort_comp ◌>>=◌ set2
outside = refl

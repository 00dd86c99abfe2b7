-- ===== src/Sorting.antt =====
-- lua-5.1.5/src/ltablib.c: the quicksort of `table.sort`. The table is a function of the index, so that
-- indexes beside the array read what the table holds there. The order is a parameter: it stands for
-- `lua_lessthan` or the call of a Lua function, and gives `none` when that raises an error; that it
-- changes nothing is taken for granted.
use lua_5_1_source_guide.Base.{
  ℕ, zero, suc, ◌+◌, ◌-◌, ◌/◌, Bool, true, false, Option, none, some, ltb, leb, ◌==◌, if◌then◌else◌,
}
pub mod Shuffle
pub mod Scans
pub mod Partition
pub mod Pieces
pub mod Sorted
pub mod Total

pub data SortError : Type 0 where
  invalid_order call_failed : SortError

-- `fault`: the rounds ran out.
pub data Outcome (A : Type 0) : Type 0 where
  ok : A → Outcome A
  err : SortError → Outcome A
  fault : Outcome A

infixl 5 ◌>>=◌
unfoldable pub ◌>>=◌ : {A B : Type 0} → Outcome A → (A → Outcome B) → Outcome B
◌>>=◌ (ok a) f = f a
◌>>=◌ (err e) f = err e
◌>>=◌ fault f = fault

module _ {V : Type 0} where
  -- `set2`, of the two values read at these indexes
  unfoldable pub set2 : (ℕ → V) → ℕ → ℕ → ℕ → V
  set2 t i j k = if k == i then t j else if k == j then t i else t k

  module _ (order : V → V → Option Bool) where
    unfoldable pub sort_comp : V → V → Outcome Bool
    sort_comp a b = elim (order a b) [ none ↦ err call_failed | some r ↦ ok r ]

    -- `while (lua_rawgeti(L, 1, ++i), sort_comp(L, -1, -2))`
    unfoldable pub scan_up : ℕ → (ℕ → V) → ℕ → V → ℕ → Outcome ℕ
    scan_up zero t u p i = fault
    scan_up (suc rounds) t u p i =
        let more = scan_up rounds t u p (i + 1) in
        sort_comp (t (i + 1)) p >>= λ less.
        if less then (if ltb u (i + 1) then err invalid_order else more) else ok (i + 1)

    -- `while (lua_rawgeti(L, 1, --j), sort_comp(L, -3, -1))`
    unfoldable pub scan_down : ℕ → (ℕ → V) → ℕ → V → ℕ → Outcome ℕ
    scan_down zero t l p j = fault
    scan_down (suc rounds) t l p j =
        let more = scan_down rounds t l p (j - 1) in
        sort_comp p (t (j - 1)) >>= λ less.
        if less then (if ltb (j - 1) l then err invalid_order else more) else ok (j - 1)

    -- `for (;;)`, with the pivot `p`: the table and the last `i`
    unfoldable pub partition : ℕ → (ℕ → V) → ℕ → ℕ → V → ℕ → ℕ → Outcome ((ℕ → V) × ℕ)
    partition zero t l u p i j = fault
    partition (suc rounds) t l u p i j = scan_up (u + 2) t u p i >>= λ i'.
        scan_down (j + 1) t l p j >>= λ j'.
        let more = partition rounds (set2 t i' j') l u p i' j' in
        if ltb j' i' then ok (t, i') else more

    -- The first elements sorted: a[l] and a[u], then these and the one between
    unfoldable pub sort_ends : (ℕ → V) → ℕ → ℕ → Outcome (ℕ → V)
    sort_ends t l u = sort_comp (t u) (t l) >>= λ less. ok (if less then set2 t l u else t)

    unfoldable pub sort_middle : (ℕ → V) → ℕ → ℕ → ℕ → Outcome (ℕ → V)
    sort_middle t l u i = sort_comp (t i) (t l) >>= λ less.
        if less
        then ok (set2 t i l)
        else (sort_comp (t u) (t i) >>= λ above. ok (if above then set2 t i u else t))

    -- The table with the pivot between the two halves, and the index of the pivot
    unfoldable pub split : (ℕ → V) → ℕ → ℕ → ℕ → Outcome ((ℕ → V) × ℕ)
    split t l u i = partition (u + 1) (set2 t i (u - 1)) l u (t i) l (u - 1) >>= λ r.
        ok (set2 r.0 (u - 1) r.1, r.1)

    -- `while (l < u)`, with the recursive call for the smaller half; `i-l < u-i` is written without
    -- negative numbers.
    unfoldable pub auxsort : ℕ → (ℕ → V) → ℕ → ℕ → Outcome (ℕ → V)
    auxsort zero t l u = if ltb l u then fault else ok t
    auxsort (suc rounds) t l u =
        let three = λ (ends : ℕ → V). sort_middle ends l u ((l + u) / 2) >>= λ middle.
        let halves = split middle l u ((l + u) / 2) >>= λ r.
        let i = r.1 in
        let low = auxsort rounds r.0 l (i - 1) >>= λ s. auxsort rounds s (i + 1) u in
        let high = auxsort rounds r.0 (i + 1) u >>= λ s. auxsort rounds s l (i - 1) in
        if ltb (i + i) (l + u) then low else high in
        if u - l == 2 then ok middle else halves in
        let more = sort_ends t l u >>= λ ends. (if u - l == 1 then ok ends else three ends) in
        if ltb l u then more else ok t

  -- `table.sort`, of an array of `n` elements; one round for each element is enough.
  unfoldable pub sort : (V → V → Option Bool) → (ℕ → V) → ℕ → Outcome (ℕ → V)
  sort order t n = auxsort order n t 1 n

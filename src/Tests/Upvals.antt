-- ===== src/Tests/Upvals.antt =====
-- Two open upvalues of lua-5.1.5/src/lfunc.c, of the places 5 and 2 of a stack of numbers.
use lua_5_1_source_guide.Base.{
  ℕ, ◌*◌, ◌<◌, ◌≡◌, refl, arith, [], ◌∷◌, false, ltb, if◌then◌else◌, All,
}
use lua_5_1_source_guide.Upvalues.{OpenUpval, State, close}
use lua_5_1_source_guide.Upvalues.Shared.{IsOpen, Shares, findupval-Shares}
use lua_5_1_source_guide.Upvalues.Closing.{upval_value, upval_value-close}

abbrev two_open : State ℕ
two_open = record {
  stack = λ i. i * 10;
  openupval = record { id = 1; v = 5; dead = false } ∷ record { id = 0; v = 2; dead = false } ∷ [];
  uvhead = 1 ∷ 0 ∷ [];
  closed = [];
  fresh = 2;
}

two_open-IsOpen : IsOpen two_open
two_open-IsOpen = record { chain = omega arith; addresses = omega arith }

findupval-Shares_example : Shares 3 two_open
findupval-Shares_example = findupval-Shares 3 two_open two_open-IsOpen

-- The stack after the function with the places from 3 on has returned
abbrev reused : ℕ → ℕ
reused i = if ltb i 3 then i * 10 else 0

upval_value-close_example :
    IsOpen (close 3 two_open)
    × All (λ (u : OpenUpval). u.v < 3) (close 3 two_open).openupval
    × (upval_value 1 (record (close 3 two_open) { stack = reused }) ≡ upval_value 1 two_open)
upval_value-close_example =
    upval_value-close 3 1 two_open reused two_open-IsOpen (refl, (refl, tt))
      (λ i h. ground (arith, h))

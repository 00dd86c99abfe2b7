-- ===== src/Upvalues/Others.antt =====
-- The open upvalues of other places, in the search of `luaF_findupval` (lua-5.1.5/src/lfunc.c).
use lua_5_1_source_guide.Base.{
  ℕ, ◌≡◌, refl, sym, ap, ◌∙◌, arith, List, [], ◌∷◌, true, false, ltb, ◌==◌, if◌then◌else◌,
  Bool-cases, inl, inr,
}
use lua_5_1_source_guide.Upvalues.{OpenUpval, new_upval, find_open}

-- The list without the upvalue of the place
unfoldable pub others : ℕ → List OpenUpval → List OpenUpval
others level [] = []
others level (u ∷ us) = let rest = others level us in if u.v == level then rest else u ∷ rest

pub others_here :
    (level : ℕ) (u : OpenUpval) (us : List OpenUpval)
    → (u.v == level) ≡ true
    → others level (u ∷ us) ≡ others level us
unfolding others
others_here level u us e = rw e refl

others_there :
    (level : ℕ) (u : OpenUpval) (us vs : List OpenUpval)
    → others level us ≡ others level vs
    → others level (u ∷ us) ≡ others level (u ∷ vs)
unfolding others
others_there level u us vs e =
    ap (λ (rest : List OpenUpval). if u.v == level then rest else u ∷ rest) e

pub others-find_open :
    (id level : ℕ) (us : List OpenUpval)
    → others level (find_open id level us).list ≡ others level us
unfolding find_open
others-find_open id level [] = others_here level (new_upval id level) [] (ground arith)
others-find_open id level (p ∷ rest) = elim (Bool-cases (ltb p.v level)) [
  | inl less ↦ rw less (others_here level (new_upval id level) (p ∷ rest) (ground arith))
  | inr more ↦ rw more (elim (Bool-cases (p.v == level)) [
    | inl same ↦ rw same (
        others_here level (record p { dead = false }) rest same
        ∙ sym (others_here level p rest same))
    | inr other ↦ rw other (others_there level p _ rest (others-find_open id level rest))
  ])
]

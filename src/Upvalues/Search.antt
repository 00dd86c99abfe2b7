-- ===== src/Upvalues/Search.antt =====
-- The search for an open upvalue in `luaF_findupval` (lua-5.1.5/src/lfunc.c).
use lua_5_1_source_guide.Base.{
  ℕ, ◌+◌, ◌≤◌, ◌<◌, ◌≡◌, ◌≢◌, refl, Option, none, some, sym, ap, subst, ◌∙◌, arith, List, [], ◌∷◌,
  Bool, true, false, ltb, ◌==◌, if◌then◌else◌, All, All-map, Bool-cases, inl, inr,
}
use lua_5_1_source_guide.Upvalues.{OpenUpval, FindUpval, new_upval, resurrect, behind, find_open}

-- In falling order of their places, with addresses of their own
abbrev pub IsChain : List OpenUpval → Type 0
IsChain [] = Unit
IsChain (u ∷ us) = All (λ (w : OpenUpval). (w.v < u.v) × (w.id ≢ u.id)) us × IsChain us

abbrev pub Below : ℕ → List OpenUpval → Type 0
Below id us = All (λ (u : OpenUpval). u.id < id) us

abbrev Above : ℕ → ℕ → List OpenUpval → Type 0
Above v id us = All (λ (w : OpenUpval). (w.v < v) × (w.id ≢ id)) us

-- What the search keeps: an order above the list, and one below
find_open-Above :
    (id level : ℕ) (us : List OpenUpval) (v i : ℕ)
    → level < v
    → id ≢ i
    → Above v i us
    → Above v i (find_open id level us).list
unfolding find_open
find_open-Above id level [] v i h ne a = ((h, ne), tt)
find_open-Above id level (p ∷ rest) v i h ne a = elim (Bool-cases (ltb p.v level)) [
  | inl less ↦ rw less ((h, ne), a)
  | inr more ↦ rw more (elim (Bool-cases (p.v == level)) [
    | inl same ↦ rw same a
    | inr other ↦ rw other (a.0, find_open-Above id level rest v i h ne a.1)
  ])
]

Below-next : (id : ℕ) (us : List OpenUpval) → Below id us → Below (id + 1) us
Below-next id [] b = tt
Below-next id (u ∷ us) b = (omega (arith, b.0), Below-next id us b.1)

at_least : (made : Bool) (id i : ℕ) → i < id → i < (if made then id + 1 else id)
at_least true id i h = omega arith
at_least false id i h = h

-- A new upvalue above a list
under :
    (id level v i : ℕ) (us : List OpenUpval)
    → v ≤ level
    → Above v i us
    → Below id us
    → Above level id us
under id level v i [] h a b = tt
under id level v i (w ∷ us) h a b =
    ((omega (arith, a.0), omega (arith, b.0)), under id level v i us h a.1 b.1)

pub find_open-IsChain :
    (id level : ℕ) (us : List OpenUpval)
    → IsChain us
    → Below id us
    → IsChain (find_open id level us).list
unfolding find_open
find_open-IsChain id level [] c b = (tt, tt)
find_open-IsChain id level (p ∷ rest) c b = elim (Bool-cases (ltb p.v level)) [
  | inl less ↦
      rw less (
        ((ground arith, omega (arith, b.0)), under id level p.v p.id rest (ground arith) c.0 b.1),
        c,
      )
  | inr more ↦ rw more (elim (Bool-cases (p.v == level)) [
    | inl same ↦ rw same c
    | inr other ↦ rw other (
      find_open-Above id level rest p.v p.id (ground arith) (omega (arith, b.0)) c.0,
      find_open-IsChain id level rest c.1 b.1,
    )
  ])
]

-- The addresses after the search are the old ones and at most the new one.
pub find_open-Below :
    (id level : ℕ) (us : List OpenUpval)
    → Below id us
    → Below (if (find_open id level us).made then id + 1 else id) (find_open id level us).list
unfolding find_open
find_open-Below id level [] b = (omega arith, tt)
find_open-Below id level (p ∷ rest) b = elim (Bool-cases (ltb p.v level)) [
  | inl less ↦ rw less (omega arith, (omega (arith, b.0), Below-next id rest b.1))
  | inr more ↦ rw more (elim (Bool-cases (p.v == level)) [
    | inl same ↦ rw same b
    | inr other ↦
        rw other
          (at_least (find_open id level rest).made id p.id b.0, find_open-Below id level rest b.1)
  ])
]

unfoldable pub find_id : ℕ → List OpenUpval → Option OpenUpval
find_id id [] = none
find_id id (u ∷ us) = let rest = find_id id us in if u.id == id then some u else rest

find_less :
    (id level : ℕ) (p : OpenUpval) (rest : List OpenUpval)
    → ltb p.v level ≡ true
    → find_open id level (p ∷ rest)
      ≡ record { made = true; upval = new_upval id level; list = new_upval id level ∷ p ∷ rest }
unfolding find_open
find_less id level p rest e = rw e refl

find_same :
    (id level : ℕ) (p : OpenUpval) (rest : List OpenUpval)
    → ltb p.v level ≡ false
    → (p.v == level) ≡ true
    → find_open id level (p ∷ rest)
      ≡ record { made = false; upval = resurrect p; list = resurrect p ∷ rest }
unfolding find_open
find_same id level p rest e f = rw (e, f) refl

find_other :
    (id level : ℕ) (p : OpenUpval) (rest : List OpenUpval)
    → ltb p.v level ≡ false
    → (p.v == level) ≡ false
    → find_open id level (p ∷ rest) ≡ behind p (find_open id level rest)
unfolding find_open
find_other id level p rest e f = rw (e, f) refl

pub find_id_first : (u : OpenUpval) (us : List OpenUpval) → find_id u.id (u ∷ us) ≡ some u
unfolding find_id
find_id_first u us = ground arith

pub find_id_later :
    (id : ℕ) (u : OpenUpval) (us : List OpenUpval) → u.id ≢ id → find_id id (u ∷ us) ≡ find_id id us
unfolding find_id
find_id_later id u us h = ground arith

-- The upvalue found is none of those before it.
found_ne :
    (id level : ℕ) (us : List OpenUpval) (i : ℕ)
    → id ≢ i
    → All (λ (w : OpenUpval). w.id ≢ i) us
    → (find_open id level us).upval.id ≢ i
unfolding find_open
found_ne id level [] i h a = h
found_ne id level (p ∷ rest) i h a = elim (Bool-cases (ltb p.v level)) [
  | inl less ↦ rw less h
  | inr more ↦ rw more (elim (Bool-cases (p.v == level)) [
    | inl same ↦ rw same a.0
    | inr other ↦ rw other (found_ne id level rest i h a.1)
  ])
]

names_apart : (v i : ℕ) (us : List OpenUpval) → Above v i us → All (λ (w : OpenUpval). w.id ≢ i) us
names_apart v i us a =
    All-map (λ (w : OpenUpval). (w.v < v) × (w.id ≢ i)) (λ (w : OpenUpval). w.id ≢ i) us
      (λ w h. h.1) a

-- What a search gives: an upvalue that refers to the place, is not dead, and stands in the list
unfoldable pub Located : ℕ → FindUpval → Type 0
Located level r =
    (find_id r.upval.id r.list ≡ some r.upval) × (r.upval.v ≡ level) × (r.upval.dead ≡ false)

pub find_open-Located :
    (id level : ℕ) (us : List OpenUpval)
    → IsChain us
    → Below id us
    → Located level (find_open id level us)
unfolding Located find_open
find_open-Located id level [] c b = (find_id_first (new_upval id level) [], refl, refl)
find_open-Located id level (p ∷ rest) c b = elim (Bool-cases (ltb p.v level)) [
  | inl less ↦
      subst (Located level) (sym (find_less id level p rest less))
        (find_id_first (new_upval id level) (p ∷ rest), refl, refl)
  | inr more ↦ elim (Bool-cases (p.v == level)) [
    | inl same ↦
        subst (Located level) (sym (find_same id level p rest more same))
          (find_id_first (resurrect p) rest, ground arith, refl)
    | inr other ↦
        let (found, place, alive) = find_open-Located id level rest c.1 b.1 in
        let ne = found_ne id level rest p.id (omega (arith, b.0)) (names_apart p.v p.id rest c.0) in
        subst (Located level) (sym (find_other id level p rest more other))
          (find_id_later _ p _ (λ e. ne (sym e)) ∙ found, place, alive)
  ]
]

-- The search for a second time
abbrev pub Settled : ℕ → ℕ → FindUpval → Type 0
Settled id level r =
    find_open id level r.list ≡ record { made = false; upval = r.upval; list = r.list }

pub find_open-Settled :
    (id id' level : ℕ) (us : List OpenUpval) → Settled id' level (find_open id level us)
unfolding find_open
find_open-Settled id id' level [] =
    find_same id' level (new_upval id level) [] (ground arith) (ground arith)
find_open-Settled id id' level (p ∷ rest) = elim (Bool-cases (ltb p.v level)) [
  | inl less ↦
      subst (Settled id' level) (sym (find_less id level p rest less))
        (find_same id' level (new_upval id level) (p ∷ rest) (ground arith) (ground arith))
  | inr more ↦ elim (Bool-cases (p.v == level)) [
    | inl same ↦
        subst (Settled id' level) (sym (find_same id level p rest more same))
          (find_same id' level (resurrect p) rest more same)
    | inr other ↦
        subst (Settled id' level) (sym (find_other id level p rest more other)) (
          find_other id' level p _ more other ∙ ap (behind p) (find_open-Settled id id' level rest))
  ]
]

-- The upvalues of the place in the list are the one that is found.
abbrev pub Known : ℕ → List OpenUpval → FindUpval → Type 0
Known level us r = All (λ (u : OpenUpval). u.v ≡ level → u.id ≡ r.upval.id) us

lower-Known :
    (level v i : ℕ) (us : List OpenUpval) (r : FindUpval)
    → Above v i us
    → v ≤ level
    → Known level us r
lower-Known level v i us r a h =
    All-map (λ (u : OpenUpval). (u.v < v) × (u.id ≢ i))
      (λ (u : OpenUpval). u.v ≡ level → u.id ≡ r.upval.id) us (λ u k e. absurd (omega (arith, k.0)))
      a

pub find_open-Known :
    (id level : ℕ) (us : List OpenUpval) → IsChain us → Known level us (find_open id level us)
find_open-Known id level [] c = tt
find_open-Known id level (p ∷ rest) c = elim (Bool-cases (ltb p.v level)) [
  | inl less ↦ (
    λ e. absurd (ground arith),
    lower-Known level p.v p.id rest (find_open id level (p ∷ rest)) c.0 (ground arith),
  )
  | inr more ↦ elim (Bool-cases (p.v == level)) [
    | inl same ↦ subst (Known level (p ∷ rest)) (sym (find_same id level p rest more same)) (
      λ e. refl,
      lower-Known level p.v p.id rest
          (record { made = false; upval = resurrect p; list = resurrect p ∷ rest }) c.0
          (ground arith),
    )
    | inr other ↦
        subst (Known level (p ∷ rest)) (sym (find_other id level p rest more other))
          (λ e. absurd (ground arith), find_open-Known id level rest c.1)
  ]
]

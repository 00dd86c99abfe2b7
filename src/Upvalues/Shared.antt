-- ===== src/Upvalues/Shared.antt =====
-- The open upvalues (lua-5.1.5/src/lfunc.c) are one for each place of the stack, in order, so that
-- closures share them.
use lua_5_1_source_guide.Base.{
  ℕ, ◌+◌, ◌≡◌, refl, some, sym, ap, subst, ◌∙◌, ◌∷◌, false, if◌then◌else◌, All, Bool-cases, inl,
  inr,
}
use lua_5_1_source_guide.Upvalues.{OpenUpval, State, FindUpval, find_open, findupval}
use lua_5_1_source_guide.Upvalues.Others.{others, others-find_open}
use lua_5_1_source_guide.Upvalues.Search.{
  IsChain, Below, find_id, Located, Settled, find_open-IsChain, find_open-Below, find_open-Located,
  find_open-Settled, find_open-Known,
}

-- The invariant of the state
pub record IsOpen {V : Type 0} (st : State V) : Type 0 where
  pub chain : IsChain st.openupval
  pub addresses : Below st.fresh st.openupval

-- The state after a search with the result `r`
after : {V : Type 0} → State V → FindUpval → State V
after st r =
    if r.made
    then record st { openupval = r.list; uvhead = st.fresh ∷ st.uvhead; fresh = st.fresh + 1 }
    else record st { openupval = r.list }

after-openupval : {V : Type 0} (st : State V) (r : FindUpval) → (after st r).openupval ≡ r.list
unfolding after
after-openupval st r = elim (Bool-cases r.made) [ inl e ↦ rw e refl | inr e ↦ rw e refl ]

after-IsOpen :
    {V : Type 0} (st : State V) (r : FindUpval)
    → IsChain r.list
    → Below (if r.made then st.fresh + 1 else st.fresh) r.list
    → IsOpen (after st r)
unfolding after
after-IsOpen st r c b = elim (Bool-cases r.made) [
  | inl e ↦ rw e (record { chain = c; addresses = rw e at b })
  | inr e ↦ rw e (record { chain = c; addresses = rw e at b })
]

after_keeps :
    {V : Type 0} (st : State V) (r : FindUpval)
    → ((after st r).stack ≡ st.stack) × ((after st r).closed ≡ st.closed)
unfolding after
after_keeps st r = elim (Bool-cases r.made) [
  | inl e ↦ rw e (refl, refl)
  | inr e ↦ rw e (refl, refl)
]

-- What `luaF_findupval` promises
pub record Shares {V : Type 0} (level : ℕ) (st : State V) : Type 0 where
  pub valid : IsOpen (findupval level st).1
  pub upval : OpenUpval
  pub listed : find_id (findupval level st).0 (findupval level st).1.openupval ≡ some upval
  pub place : upval.v ≡ level
  pub alive : upval.dead ≡ false
  pub known : All (λ (u : OpenUpval). u.v ≡ level → u.id ≡ (findupval level st).0) st.openupval
  pub kept : others level (findupval level st).1.openupval ≡ others level st.openupval
  pub rest : ((findupval level st).1.stack ≡ st.stack) × ((findupval level st).1.closed ≡ st.closed)
  pub again : findupval level (findupval level st).1 ≡ findupval level st

findupval-after :
    {V : Type 0} (level : ℕ) (st : State V)
    → findupval level st ≡ (
      (find_open st.fresh level st.openupval).upval.id,
      after st (find_open st.fresh level st.openupval),
    )
unfolding findupval after
findupval-after level st = refl

after-Settled :
    {V : Type 0} (level : ℕ) (st : State V) (r : FindUpval)
    → ((id : ℕ) → Settled id level r)
    → findupval level (after st r) ≡ (r.upval.id, after st r)
unfolding findupval after
after-Settled level st r s = elim (Bool-cases r.made) [
  | inl e ↦ rw (e, s (st.fresh + 1)) refl
  | inr e ↦ rw (e, s st.fresh) refl
]

-- In a state whose open upvalues stand in falling order of their places, each at an address of its
-- own, `luaF_findupval` of a place gives the address of an open upvalue that refers to the place and is
-- not dead, and it is the one that was open for the place, if there was one. The state is such a state
-- again; the open upvalues of other places, the stack and the closed upvalues are what they were; and
-- another call gives the same upvalue and changes nothing.
pub findupval-Shares : {V : Type 0} (level : ℕ) (st : State V) → IsOpen st → Shares level st
unfolding Located
findupval-Shares {V = V} level st v =
    let r = find_open st.fresh level st.openupval in
    let (listed, place, alive) =
      find_open-Located st.fresh level st.openupval v.chain v.addresses in
    let runs = findupval-after level st in
    record {
      valid =
          subst (λ (x : ℕ × State V). IsOpen x.1) (sym runs)
            (after-IsOpen st r (find_open-IsChain st.fresh level st.openupval v.chain v.addresses)
              (find_open-Below st.fresh level st.openupval v.addresses));
      upval = r.upval;
      listed =
          subst (λ (x : ℕ × State V). find_id x.0 x.1.openupval ≡ some r.upval) (sym runs)
            (ap (find_id r.upval.id) (after-openupval st r) ∙ listed);
      place = place;
      alive = alive;
      known =
          subst
            (λ (x : ℕ × State V). All (λ (u : OpenUpval). u.v ≡ level → u.id ≡ x.0) st.openupval)
            (sym runs) (find_open-Known st.fresh level st.openupval v.chain);
      kept =
          subst (λ (x : ℕ × State V). others level x.1.openupval ≡ others level st.openupval)
            (sym runs)
            (ap (others level) (after-openupval st r)
              ∙ others-find_open st.fresh level st.openupval);
      rest =
          subst (λ (x : ℕ × State V). (x.1.stack ≡ st.stack) × (x.1.closed ≡ st.closed)) (sym runs)
            (after_keeps st r);
      again =
          subst (λ (x : ℕ × State V). findupval level x.1 ≡ x) (sym runs)
            (after-Settled level st r (λ id. find_open-Settled st.fresh id level st.openupval));
    }

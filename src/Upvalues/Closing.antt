-- ===== src/Upvalues/Closing.antt =====
-- `luaF_close` (lua-5.1.5/src/lfunc.c): closed upvalues keep their values when the stack is used again.
use lua_5_1_source_guide.Base.{
  ℕ, ◌<◌, ◌≡◌, ◌≢◌, refl, Option, none, some, sym, ap, subst, ◌∙◌, arith, List, [], ◌∷◌, true,
  false, ◌&&◌, leb, ◌==◌, if◌then◌else◌, All, All-map, Bool-cases, inl, inr,
}
use lua_5_1_source_guide.Upvalues.{OpenUpval, State, close_upval, close_loop, close}
use lua_5_1_source_guide.Upvalues.Search.{IsChain, Below, find_id, find_id_later}
use lua_5_1_source_guide.Upvalues.Shared.{IsOpen}

-- No upvalue at the address waits to be freed.
abbrev pub Alive : ℕ → List OpenUpval → Type 0
Alive id us = All (λ (u : OpenUpval). u.dead && u.id == id ≡ false) us

not_listed :
    (id : ℕ) (u : OpenUpval) (us : List OpenUpval)
    → All (λ (w : OpenUpval). (w.v < u.v) × (w.id ≢ u.id)) us
    → u.id ≡ id
    → find_id id us ≡ none
unfolding find_id
not_listed id u [] a e = refl
not_listed id u (w ∷ us) a e = ground (arith, not_listed id u us a.1 e, a.0.1)

listed_first :
    (id : ℕ) (u : OpenUpval) (us : List OpenUpval)
    → (u.id == id) ≡ true
    → find_id id (u ∷ us) ≡ some u
unfolding find_id
listed_first id u us e = rw e refl

module _ {V : Type 0} where
  unfoldable pub find_closed : ℕ → List (ℕ × V) → Option V
  find_closed id [] = none
  find_closed id ((i, x) ∷ l) = let rest = find_closed id l in if i == id then some x else rest

  abbrev pub read_from : (ℕ → V) → Option OpenUpval → Option V → Option V
  read_from stack (some u) x = some (stack u.v)
  read_from stack none x = x

  -- The value of the upvalue at an address
  abbrev pub upval_value : ℕ → State V → Option V
  upval_value id st = read_from st.stack (find_id id st.openupval) (find_closed id st.closed)

  closed_first :
      (id i : ℕ) (x : V) (l : List (ℕ × V))
      → (i == id) ≡ true
      → find_closed id ((i, x) ∷ l) ≡ some x
  unfolding find_closed
  closed_first id i x l e = rw e refl

  closed_later :
      (id i : ℕ) (x : V) (l : List (ℕ × V))
      → (i == id) ≡ false
      → find_closed id ((i, x) ∷ l) ≡ find_closed id l
  unfolding find_closed
  closed_later id i x l e = rw e refl

  freed :
      (u : OpenUpval) (us : List OpenUpval) (st : State V) (id : ℕ)
      → u.dead ≡ true
      → upval_value id (record (close_upval u st) { openupval = us })
        ≡ read_from st.stack (find_id id us) (find_closed id st.closed)
  unfolding close_upval
  freed u us st id e = rw e refl

  kept :
      (u : OpenUpval) (us : List OpenUpval) (st : State V) (id : ℕ)
      → u.dead ≡ false
      → upval_value id (record (close_upval u st) { openupval = us })
        ≡ read_from st.stack (find_id id us) (find_closed id ((u.id, st.stack u.v) ∷ st.closed))
  unfolding close_upval
  kept u us st id e = rw e refl

  -- One upvalue less in the list
  one_closed :
      (id : ℕ) (u : OpenUpval) (us : List OpenUpval) (st : State V)
      → IsChain (u ∷ us)
      → u.dead && u.id == id ≡ false
      → upval_value id (record (close_upval u st) { openupval = us })
        ≡ upval_value id (record st { openupval = u ∷ us })
  one_closed id u us st c a = elim (Bool-cases (u.id == id)) [
    | inl same ↦
        kept u us st id (ground arith)
        ∙ ap
            (λ (o : Option OpenUpval).
              read_from st.stack o (find_closed id ((u.id, st.stack u.v) ∷ st.closed)))
            (not_listed id u us c.0 (ground arith))
        ∙ closed_first id u.id (st.stack u.v) st.closed same
        ∙ sym (
            ap (λ (o : Option OpenUpval). read_from st.stack o (find_closed id st.closed))
              (listed_first id u us same))
    | inr other ↦
        let listed = sym (
          ap (λ (o : Option OpenUpval). read_from st.stack o (find_closed id st.closed))
            (find_id_later id u us (ground arith))) in
        elim (Bool-cases u.dead) [
          | inl dead ↦ freed u us st id dead ∙ listed
          | inr alive ↦
              kept u us st id alive
              ∙ ap (read_from st.stack (find_id id us))
                  (closed_later id u.id (st.stack u.v) st.closed other)
              ∙ listed
        ]
  ]

  loop_goes :
      (level : ℕ) (u : OpenUpval) (us : List OpenUpval) (st : State V)
      → leb level u.v ≡ true
      → close_loop level (u ∷ us) st ≡ close_loop level us (close_upval u st)
  unfolding close_loop
  loop_goes level u us st e = rw e refl

  loop_stops :
      (level : ℕ) (u : OpenUpval) (us : List OpenUpval) (st : State V)
      → leb level u.v ≡ false
      → close_loop level (u ∷ us) st ≡ record st { openupval = u ∷ us }
  unfolding close_loop
  loop_stops level u us st e = rw e refl

  loop_reads :
      (level id : ℕ) (us : List OpenUpval) (st : State V)
      → IsChain us
      → Alive id us
      → upval_value id (close_loop level us st) ≡ upval_value id (record st { openupval = us })
  unfolding close_loop
  loop_reads level id [] st c a = refl
  loop_reads level id (u ∷ us) st c a = elim (Bool-cases (leb level u.v)) [
    | inl closes ↦
        ap (upval_value id) (loop_goes level u us st closes)
        ∙ loop_reads level id us (close_upval u st) c.1 a.1
        ∙ one_closed id u us st c a.0
    | inr stops ↦ ap (upval_value id) (loop_stops level u us st stops)
  ]

  -- What is left of the open upvalues of `st`, and of its stack
  record Left (level : ℕ) (st st' : State V) : Type 0 where
    stack : st'.stack ≡ st.stack
    valid : IsOpen st'
    below : All (λ (u : OpenUpval). u.v < level) st'.openupval

  close_upval-stack : (u : OpenUpval) (st : State V) → (close_upval u st).stack ≡ st.stack
  unfolding close_upval
  close_upval-stack u st = elim (Bool-cases u.dead) [ inl e ↦ rw e refl | inr e ↦ rw e refl ]

  close_upval-fresh : (u : OpenUpval) (st : State V) → (close_upval u st).fresh ≡ st.fresh
  unfolding close_upval
  close_upval-fresh u st = elim (Bool-cases u.dead) [ inl e ↦ rw e refl | inr e ↦ rw e refl ]

  loop-Left :
      (level : ℕ) (us : List OpenUpval) (st : State V)
      → IsChain us
      → Below st.fresh us
      → Left level st (close_loop level us st)
  unfolding close_loop
  loop-Left level [] st c b = record {
    stack = refl;
    valid = record { chain = tt; addresses = tt };
    below = tt;
  }
  loop-Left level (u ∷ us) st c b = elim (Bool-cases (leb level u.v)) [
    | inl closes ↦
        let st₁ = close_upval u st in
        let rest =
          loop-Left level us st₁ c.1
            (subst (λ (n : ℕ). Below n us) (sym (close_upval-fresh u st)) b.1) in
        subst (Left level st) (sym (loop_goes level u us st closes)) (record {
          stack = rest.stack ∙ close_upval-stack u st;
          valid = rest.valid;
          below = rest.below;
        })
    | inr stops ↦ subst (Left level st) (sym (loop_stops level u us st stops)) (record {
      stack = refl;
      valid = record { chain = c; addresses = b };
      below = (
        ground arith,
        All-map (λ (w : OpenUpval). (w.v < u.v) × (w.id ≢ u.id)) (λ (w : OpenUpval). w.v < level) us
            (λ w h. ground (arith, h.0)) c.0,
      );
    })
  ]

  -- The places that open upvalues refer to are all that a read sees of the stack.
  read_below :
      (level id : ℕ) (us : List OpenUpval) (x : Option V) (stack stack' : ℕ → V)
      → All (λ (u : OpenUpval). u.v < level) us
      → ((i : ℕ) → i < level → stack' i ≡ stack i)
      → read_from stack' (find_id id us) x ≡ read_from stack (find_id id us) x
  unfolding find_id
  read_below level id [] x stack stack' b h = refl
  read_below level id (u ∷ us) x stack stack' b h = elim (Bool-cases (u.id == id)) [
    | inl same ↦ rw same (ap some (h u.v b.0))
    | inr other ↦ rw other (read_below level id us x stack stack' b.1 h)
  ]

  -- In a state with open upvalues in falling order and at addresses of their own, `luaF_close` of a place
  -- leaves such a state, where no open upvalue refers to that place or one above it. Then whatever is
  -- written to the stack from the place on, every upvalue that does not wait to be freed has the value
  -- it had before.
  pub upval_value-close :
      (level id : ℕ) (st : State V) (stack' : ℕ → V)
      → IsOpen st
      → Alive id st.openupval
      → ((i : ℕ) → i < level → stack' i ≡ st.stack i)
      → IsOpen (close level st)
        × All (λ (u : OpenUpval). u.v < level) (close level st).openupval
        × (upval_value id (record (close level st) { stack = stack' }) ≡ upval_value id st)
  unfolding close
  upval_value-close level id st stack' v a h =
      let left = loop-Left level st.openupval st v.chain v.addresses in
      let st' = close_loop level st.openupval st in
      (
        left.valid,
        left.below,
        read_below level id st'.openupval (find_closed id st'.closed) st'.stack stack' left.below
              (λ i small. h i small ∙ sym (ap (λ (s : ℕ → V). s i) left.stack))
            ∙ loop_reads level id st.openupval st v.chain a,
      )

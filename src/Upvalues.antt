-- ===== src/Upvalues.antt =====
-- lua-5.1.5/src/lfunc.c: the open upvalues of a thread, and how they are closed.
pub mod Others
pub mod Search
pub mod Shared
pub mod Closing
use lua_5_1_source_guide.Base.{
  ℕ, zero, suc, ◌+◌, List, [], ◌∷◌, Option, none, some, Bool, true, false, ltb, leb, ◌==◌,
  if◌then◌else◌,
}

-- An open upvalue at the address `id`. `v` is the place of the stack that it refers to; `dead` is what
-- `isdead` reads from its mark.
pub record OpenUpval : Type 0 where
  pub id : ℕ
  pub v : ℕ
  pub dead : Bool

-- `openupval` is the list of `L`, `uvhead` the doubly linked list of all open upvalues, `closed` the
-- upvalues that hold their values themselves, on the list of the collector. `fresh` is the address that
-- the allocator gives next.
pub record State (V : Type 0) : Type 0 where
  pub stack : ℕ → V
  pub openupval : List OpenUpval
  pub uvhead : List ℕ
  pub closed : List (ℕ × V)
  pub fresh : ℕ

-- What `luaF_findupval` finds in the list, and the list: `made` tells that the upvalue is new.
pub record FindUpval : Type 0 where
  pub made : Bool
  pub upval : OpenUpval
  pub list : List OpenUpval

abbrev pub new_upval : ℕ → ℕ → OpenUpval
new_upval id level = record { id = id; v = level; dead = false }

-- `changewhite` of a dead upvalue
abbrev pub resurrect : OpenUpval → OpenUpval
resurrect p = record p { dead = false }

abbrev pub behind : OpenUpval → FindUpval → FindUpval
behind p r = record r { list = p ∷ r.list }

unfoldable pub find_open : ℕ → ℕ → List OpenUpval → FindUpval
find_open id level [] = record {
  made = true;
  upval = new_upval id level;
  list = new_upval id level ∷ [];
}
find_open id level (p ∷ rest) =
    let later = find_open id level rest in
    if ltb p.v level
    then record { made = true; upval = new_upval id level; list = new_upval id level ∷ p ∷ rest }
    else if p.v == level
    then record { made = false; upval = resurrect p; list = resurrect p ∷ rest }
    else behind p later

abbrev pub unlinkupval : ℕ → List ℕ → List ℕ
unlinkupval id [] = []
unlinkupval id (x ∷ xs) = let rest = unlinkupval id xs in if x == id then xs else x ∷ rest

module _ {V : Type 0} where
  -- The address of the upvalue, and the state
  unfoldable pub findupval : ℕ → State V → ℕ × State V
  findupval level st =
      let r = find_open st.fresh level st.openupval in
      (
        r.upval.id,
        if r.made
            then record st {
              openupval = r.list;
              uvhead = st.fresh ∷ st.uvhead;
              fresh = st.fresh + 1;
            }
            else record st { openupval = r.list },
      )

  -- A dead upvalue is freed, another one gets its value.
  unfoldable pub close_upval : OpenUpval → State V → State V
  close_upval uv st =
      if uv.dead then record st { uvhead = unlinkupval uv.id st.uvhead } else record st {
        uvhead = unlinkupval uv.id st.uvhead;
        closed = (uv.id, st.stack uv.v) ∷ st.closed;
      }

  -- The loop of `luaF_close`, on the list `openupval`
  unfoldable pub close_loop : ℕ → List OpenUpval → State V → State V
  close_loop level [] st = record st { openupval = [] }
  close_loop level (uv ∷ rest) st =
      let closes = close_loop level rest (close_upval uv st) in
      if leb level uv.v then closes else record st { openupval = uv ∷ rest }

  unfoldable pub close : ℕ → State V → State V
  close level st = close_loop level st.openupval st

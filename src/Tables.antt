-- ===== src/Tables.antt =====
-- lua-5.1.5/src/ltable.c: the length of a table, and `luaH_getnum`. The comparison of two lua_Numbers and the
-- conversion of an `int` are parameters, on 64-bit patterns.
use lua_5_1_source_guide.Base.{
  ℕ, zero, suc, ◌+◌, ◌-◌, ◌*◌, ◌/◌, List, Option, none, some, Bool, true, false, not, ◌&&◌, ltb,
  leb, if◌then◌else◌, length, get_or, ◌%◌, ◌^◌, bit_or, get_elem?,
}
use lua_5_1_source_guide.Code.Emit.{max_int}
pub mod Search
pub mod Length
pub mod Sizes

-- nil is `none`; of a key, the pattern of a number counts here, and no other type.
pub record Node (V : Type 0) : Type 0 where
  pub i_val : Option V
  pub number_key : Option ℕ
  pub next : Option ℕ

-- A pointer to a node is its index.
pub record Table (V : Type 0) : Type 0 where
  pub array : List (Option V)
  pub node : List (Node V)
  pub is_dummy : Bool

abbrev pub dummynode : {V : Type 0} → Node V
dummynode = record { i_val = none; number_key = none; next = none }

abbrev pub is_nil : {V : Type 0} → Option V → Bool
is_nil none = true
is_nil (some v) = false

-- `while (j - i > 1)`, over a test for nil. Each loop takes rounds, and gives `none` when they run out.
unfoldable pub binary_search : (ℕ → Bool) → ℕ → ℕ → ℕ → Option ℕ
binary_search absent zero i j = if ltb 1 (j - i) then none else some i
binary_search absent (suc rounds) i j =
    let m = (i + j) / 2 in
    let lower = binary_search absent rounds i m in
    let upper = binary_search absent rounds m j in
    if ltb 1 (j - i) then (if absent m then lower else upper) else some i

-- The linear search of a table "built with bad purposes"
unfoldable pub linear_search : (ℕ → Bool) → ℕ → ℕ → Option ℕ
linear_search absent zero i = none
linear_search absent (suc rounds) i =
    let more = linear_search absent rounds (i + 1) in if absent i then some (i - 1) else more

-- The loop that doubles `j`, and what follows it. `keys` rounds are for the linear search.
unfoldable pub doubling : (ℕ → Bool) → ℕ → ℕ → ℕ → ℕ → Option ℕ
doubling absent keys zero i j = none
doubling absent keys (suc rounds) i j =
    let more = doubling absent keys rounds j (j * 2) in
    if absent j
    then binary_search absent j i j
    else if ltb max_int (j * 2)
    then linear_search absent keys 1
    else more

-- Thirty-two rounds are enough: `j` is at least 1 and doubles up to MAX_INT.
unfoldable pub unbound_search : (ℕ → Bool) → ℕ → ℕ → Option ℕ
unbound_search absent keys j = doubling absent keys 32 j (j + 1)

module _ {V : Type 0} (luai_numeq : ℕ → ℕ → Bool) (cast_num : ℕ → ℕ) where
  -- `hashnum`, with `hashmod`: the two halves of the number added
  unfoldable pub hashnum : List (Node V) → ℕ → ℕ
  hashnum node n =
      if luai_numeq n 0 then 0 else (n % 2 ^ 32 + n / 2 ^ 32) % 2 ^ 32 % bit_or (length node - 1) 1

  abbrev pub has_key : Node V → ℕ → Bool
  has_key x nk = elim x.number_key [ none ↦ false | some k ↦ luai_numeq k nk ]

  -- The walk along the chain. It visits each node once, so that as many rounds as nodes are enough.
  unfoldable pub find_number : List (Node V) → ℕ → ℕ → ℕ → Option V
  find_number node nk zero n = none
  find_number node nk (suc rounds) n = elim (get_elem? node n) [
    | none ↦ none
    | some x ↦
        let rest : Option V = elim x.next [ none ↦ none | some m ↦ find_number node nk rounds m ] in
        if has_key x nk then x.i_val else rest
  ]

  -- The keys here are at least 1.
  unfoldable pub getnum : Table V → ℕ → Option V
  getnum t key =
      if leb key (length t.array)
      then get_or t.array (key - 1) none
      else find_number t.node (cast_num key) (length t.node) (hashnum t.node (cast_num key))

  -- `luaH_getn`
  unfoldable pub getn : ℕ → Table V → Option ℕ
  getn keys t =
      let j = length t.array in
      if ltb 0 j && is_nil (get_or t.array (j - 1) none)
      then binary_search (λ m. is_nil (get_or t.array (m - 1) none)) j 0 j
      else if t.is_dummy
      then some j
      else unbound_search (λ m. is_nil (getnum t m)) keys j

-- ===== src/Code/Indexed.antt =====
-- The table that finds the constants of a function again (`addk` of lua-5.1.5/src/lcode.c).
use lua_5_1_source_guide.Base.{
  ℕ, zero, suc, ◌≤◌, ◌<◌, ◌≡◌, ◌⊎◌, refl, sym, ap, subst, ◌∙◌, arith, List, [], ◌∷◌, ◌++◌, none,
  some, true, false, leb, length, length-append, get_or, All, All-map, Bool-cases, Option-cases,
  inl, inr,
}
use lua_5_1_source_guide.Opcodes.{max_arg_bx}
use lua_5_1_source_guide.Chunk.Proto.{Constant}
use lua_5_1_source_guide.Chunk.Header.{name_eq_self}
use lua_5_1_source_guide.Code.State.{
  index_is_nan, constant_table_overflow, Outcome, ok, err, stuck, FuncState, Key, ◌>>=◌, ◌>>◌,
  return, get, assert,
}
use lua_5_1_source_guide.Code.Constants.{
  Numbers, key_of, key_eq, raw_equal, is_nan_key, lookup, new_constant, found_constant, addk,
}

-- An entry leads to the constant that it stands for.
abbrev pub Leads : List Constant → Key × ℕ → Type 0
Leads k e = (e.1 < length k) × (e.0 ≡ key_of (get_or k e.1 Constant.nil))

abbrev pub Indexed : FuncState → Type 0
Indexed fs = All (Leads fs.k) fs.h

get_or-append :
    (k more : List Constant) (i : ℕ)
    → i < length k
    → get_or (k ++ more) i Constant.nil ≡ get_or k i Constant.nil
get_or-append [] more i h = absurd (omega arith)
get_or-append (c ∷ k) more zero h = refl
get_or-append (c ∷ k) more (suc i) h = get_or-append k more i (omega arith)

get_or_end : (k : List Constant) (c : Constant) → get_or (k ++ c ∷ []) (length k) Constant.nil ≡ c
get_or_end [] c = refl
get_or_end (d ∷ k) c = get_or_end k c

Leads-append : (k more : List Constant) (e : Key × ℕ) → Leads k e → Leads (k ++ more) e
Leads-append k more e h =
    (omega (arith, h.0, length-append k more), h.1 ∙ ap key_of (sym (get_or-append k more e.1 h.0)))

module _ (num : Numbers) where
  found :
      (P : Key × ℕ → Type 0) (key : Key) (h : List (Key × ℕ)) (i : ℕ)
      → All P h
      → lookup num key h ≡ some i
      → (key' : Key) × P (key', i) × (key_eq num key' key ≡ true)
  unfolding lookup
  found P key [] i a e = cc
  found P key ((key', j) ∷ h) i a e = elim (Bool-cases (key_eq num key' key)) [
    | inl same ↦
        let here : j ≡ i = ground arith in (key', subst (λ (z : ℕ). P (key', z)) here a.0, same)
    | inr other ↦ found P key h i a.1 (ground arith)
  ]

  -- What `addk` leaves for the constant `v`: its index, at which the constants have it, with the others
  -- as they were, or an error with its cause
  abbrev pub HasIndex : Constant → FuncState → Outcome (ℕ × FuncState) → Type 0
  HasIndex v fs (ok (i, fs')) =
      Indexed fs'
      × (i < length fs'.k)
      × (raw_equal num (get_or fs'.k i Constant.nil) v ≡ true)
      × (fs'.code ≡ fs.code)
      × ((fs'.k ≡ fs.k) ⊎ (fs'.k ≡ fs.k ++ v ∷ []))
  HasIndex v fs (err e) =
      ((e ≡ index_is_nan) × (is_nan_key num (key_of v) ≡ true))
      ⊎ ((e ≡ constant_table_overflow) × (max_arg_bx ≤ length fs.k))
  HasIndex v fs stuck = ⊥

  old_constant :
      (fs : FuncState) (i : ℕ) (v : Constant)
      → raw_equal num (get_or fs.k i Constant.nil) v ≡ true
      → found_constant num i v fs ≡ ok (i, fs)
  unfolding found_constant ◌>>=◌ ◌>>◌ get assert return
  old_constant fs i v h = rw h refl

  raw_equal_same :
      ((r : ℕ) → num.is_nan r ≡ false → num.num_eq r r ≡ true)
      → (v : Constant) → is_nan_key num (key_of v) ≡ false
      → raw_equal num v v ≡ true
  unfolding key_eq
  raw_equal_same numbers Constant.nil h = refl
  raw_equal_same numbers (Constant.boolean true) h = refl
  raw_equal_same numbers (Constant.boolean false) h = refl
  raw_equal_same numbers (Constant.number r) h = numbers r h
  raw_equal_same numbers (Constant.string none) h = name_eq_self none
  raw_equal_same numbers (Constant.string (some s)) h = name_eq_self (some s)

  addk_old :
      (key : Key) (v : Constant) (fs : FuncState) (i : ℕ)
      → lookup num key fs.h ≡ some i
      → addk num key v fs ≡ found_constant num i v fs
  unfolding addk found_constant
  addk_old key v fs i e = rw (e, addk) refl

  addk_new :
      (key : Key) (v : Constant) (fs : FuncState)
      → lookup num key fs.h ≡ none
      → addk num key v fs ≡ new_constant num key v fs
  unfolding addk new_constant
  addk_new key v fs e = rw (e, addk) refl

  new_constant-HasIndex :
      (fs : FuncState) (v : Constant)
      → ((r : ℕ) → num.is_nan r ≡ false → num.num_eq r r ≡ true)
      → Indexed fs
      → HasIndex v fs (new_constant num (key_of v) v fs)
  unfolding new_constant
  new_constant-HasIndex fs v numbers h = elim (Bool-cases (is_nan_key num (key_of v))) [
    | inl nan ↦ rw nan (inl (refl, nan))
    | inr no_nan ↦ rw no_nan (elim (Bool-cases (leb max_arg_bx (length fs.k))) [
      | inl full ↦ rw full (inr (refl, ground arith))
      | inr room ↦ rw room (
        (
          (omega (arith, length-append fs.k (v ∷ [])), ap key_of (sym (get_or_end fs.k v))),
          All-map (Leads fs.k) (Leads (fs.k ++ v ∷ [])) fs.h (Leads-append fs.k (v ∷ [])) h,
        ),
        omega (arith, length-append fs.k (v ∷ [])),
        subst (λ (c : Constant). raw_equal num c v ≡ true) (sym (get_or_end fs.k v))
            (raw_equal_same numbers v no_nan),
        refl,
        inr refl,
      )
    ])
  ]

  -- In a state whose table leads from every key to the constant it stands for, and where a number that
  -- is not NaN equals itself, `addk` of a constant under its key does one of three things. It gives an
  -- index at which the constants have it, the table still leads so, the code is as before, and the
  -- constants are as before or have the new one behind them; or the constant is NaN; or there are
  -- `MAXARG_Bx` constants. The assertion in it never fails.
  pub addk-HasIndex :
      (fs : FuncState) (v : Constant)
      → ((r : ℕ) → num.is_nan r ≡ false → num.num_eq r r ≡ true)
      → Indexed fs
      → HasIndex v fs (addk num (key_of v) v fs)
  addk-HasIndex fs v numbers h = elim (Option-cases (lookup num (key_of v) fs.h)) [
    | inl new ↦
        subst (HasIndex v fs) (sym (addk_new (key_of v) v fs new))
          (new_constant-HasIndex fs v numbers h)
    | inr (i, old) ↦
        let (key, leads, same) = found (Leads fs.k) (key_of v) fs.h i h old in
        let equal : raw_equal num (get_or fs.k i Constant.nil) v ≡ true =
          subst (λ (x : Key). key_eq num x (key_of v) ≡ true) leads.1 same in
        subst (HasIndex v fs) (sym (addk_old (key_of v) v fs i old ∙ old_constant fs i v equal))
          (h, leads.0, equal, refl, inl refl)
  ]

  again :
      (fs : FuncState) (v : Constant) (i : ℕ)
      → lookup num (key_of v) fs.h ≡ some i
      → raw_equal num (get_or fs.k i Constant.nil) v ≡ true
      → addk num (key_of v) v fs ≡ ok (i, fs)
  again fs v i old equal = addk_old (key_of v) v fs i old ∙ old_constant fs i v equal

  -- Another call finds the constant at the same index and leaves the state as it is.
  abbrev Stays : Constant → Outcome (ℕ × FuncState) → Type 0
  Stays v (ok (i, fs)) = addk num (key_of v) v fs ≡ ok (i, fs)
  Stays v (err e) = Unit
  Stays v stuck = Unit

  lookup_first :
      (key : Key) (i : ℕ) (h : List (Key × ℕ))
      → key_eq num key key ≡ true
      → lookup num key ((key, i) ∷ h) ≡ some i
  unfolding lookup
  lookup_first key i h e = rw e refl

  new_constant-Stays :
      (fs : FuncState) (v : Constant)
      → ((r : ℕ) → num.is_nan r ≡ false → num.num_eq r r ≡ true)
      → Stays v (new_constant num (key_of v) v fs)
  unfolding new_constant
  new_constant-Stays fs v numbers = elim (Bool-cases (is_nan_key num (key_of v))) [
    | inl nan ↦ rw nan tt
    | inr no_nan ↦ rw no_nan (elim (Bool-cases (leb max_arg_bx (length fs.k))) [
      | inl full ↦ rw full tt
      | inr room ↦
          let equal = raw_equal_same numbers v no_nan in
          rw room (
            again _ v (length fs.k) (lookup_first (key_of v) (length fs.k) fs.h equal)
              (subst (λ (c : Constant). raw_equal num c v ≡ true) (sym (get_or_end fs.k v)) equal))
    ])
  ]

  addk-Stays :
      (fs : FuncState) (v : Constant)
      → ((r : ℕ) → num.is_nan r ≡ false → num.num_eq r r ≡ true)
      → Indexed fs
      → Stays v (addk num (key_of v) v fs)
  addk-Stays fs v numbers h = elim (Option-cases (lookup num (key_of v) fs.h)) [
    | inl new ↦
        subst (Stays v) (sym (addk_new (key_of v) v fs new)) (new_constant-Stays fs v numbers)
    | inr (i, old) ↦
        let (key, leads, same) = found (Leads fs.k) (key_of v) fs.h i h old in
        let equal : raw_equal num (get_or fs.k i Constant.nil) v ≡ true =
          subst (λ (x : Key). key_eq num x (key_of v) ≡ true) leads.1 same in
        let runs = again fs v i old equal in subst (Stays v) (sym runs) runs
  ]

  -- In a state whose table leads from every key to the constant it stands for, and where a number that
  -- is not NaN equals itself, if `addk` of a constant under its key succeeds, then once
  -- more it gives the same index and changes nothing.
  pub addk-addk :
      (fs fs' : FuncState) (v : Constant) (i : ℕ)
      → ((r : ℕ) → num.is_nan r ≡ false → num.num_eq r r ≡ true)
      → Indexed fs
      → addk num (key_of v) v fs ≡ ok (i, fs')
      → addk num (key_of v) v fs' ≡ ok (i, fs')
  addk-addk fs fs' v i numbers h runs = subst (Stays v) runs (addk-Stays fs v numbers h)

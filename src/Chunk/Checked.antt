-- ===== src/Chunk/Checked.antt =====
-- The functions that `luaU_undump` (lua-5.1.5/src/lundump.c) lets through.
use lua_5_1_source_guide.Base.{
  ℕ, zero, suc, ◌≡◌, refl, sym, ap, subst, List, Option, Bool, true, false, not,
}
use lua_5_1_source_guide.Chunk.Proto.{Str, Proto, Protos, proto, none_left, next}
use lua_5_1_source_guide.Chunk.Undump.{
  LoadState, Load, Result, ok, err, fault, bad_code, ◌>>=◌, return, error_if, enter, leave,
  load_int, load_head, load_debug, load_functions, load_function, load_header, undump,
}
use lua_5_1_source_guide.Chunk.Loaded.{Checks, ChecksAll}

module _ {S : Type 0} where
  -- A sequence that succeeds, taken apart
  pub record Parts (A B : Type 0) (m : Load S A) (f : A → Load S B) (st : LoadState S)
      (r : B × LoadState S) : Type 0 where
    pub value : A
    pub between : LoadState S
    pub first : m st ≡ ok (value, between)
    pub rest : f value between ≡ ok r

  pub parts :
      {A B : Type 0} (m : Load S A) (f : A → Load S B) (st : LoadState S) (r : B × LoadState S)
      → (m >>= f) st ≡ ok r
      → Parts A B m f st r
  unfolding ◌>>=◌
  parts {A = A} {B = B} m f st r e = go (m st) refl e
    where
      go :
          (q : Result (A × LoadState S))
          → m st ≡ q
          → elim q [ ok (a, st') ↦ f a st' | err w ↦ err w | fault ↦ fault ] ≡ ok r
          → Parts A B m f st r
      go (ok (a, between)) first rest = record {
        value = a;
        between = between;
        first = first;
        rest = rest;
      }
      go (err w) first rest = absurd cc
      go fault first rest = absurd cc

  pub returned :
      {A : Type 0} (a : A) (st : LoadState S) (r : A × LoadState S) → return a st ≡ ok r → r.0 ≡ a
  unfolding return
  returned {A = A} a st r e =
      ap (λ (q : Result (A × LoadState S)). elim q [ ok x ↦ x.0 | err w ↦ a | fault ↦ a ]) (sym e)

  allowed :
      (c : Bool) (st : LoadState S) (r : Unit {0} × LoadState S)
      → error_if (not c) bad_code st ≡ ok r
      → c ≡ true
  unfolding error_if
  allowed true st r e = refl
  allowed false st r e = absurd cc

module _ {S : Type 0} (reader : S → List ℕ × S) (check_code : Proto → Bool) where
  loads_all :
      (item : Load S Proto)
      → ((st : LoadState S) (r : Proto × LoadState S) → item st ≡ ok r → Checks check_code r.0)
      → (n : ℕ) (st : LoadState S) (r : Protos × LoadState S)
      → load_functions reader item n st ≡ ok r
      → ChecksAll check_code r.0
  unfolding load_functions
  loads_all item good zero st r e =
      subst (ChecksAll check_code) (sym (returned none_left st r e)) tt
  loads_all item good (suc n) st r e =
      let f = parts item _ st r e in
      let fs = parts (load_functions reader item n) _ f.between r f.rest in
      subst (ChecksAll check_code) (sym (returned (next f.value fs.value) fs.between r fs.rest))
        (good st _ f.first, loads_all item good n f.between _ fs.first)

  -- Every function that `LoadFunction` returns, from whatever bytes, has passed the check of
  -- `luaG_checkcode`, and so has every function nested in it.
  pub load_function-Checks :
      (calls : ℕ) (p : Option Str) (st : LoadState S) (r : Proto × LoadState S)
      → load_function reader check_code calls p st ≡ ok r
      → Checks check_code r.0
  unfolding load_function
  load_function-Checks zero p st r e = absurd cc
  load_function-Checks (suc calls) p st r e =
      let entered = parts (enter reader) _ st r e in
      let f = parts (load_head reader p) _ entered.between r entered.rest in
      let n = parts (load_int reader) _ f.between r f.rest in
      let fs =
        parts (load_functions reader (load_function reader check_code calls f.value.source) n.value)
          _ n.between r n.rest in
      let d = parts (load_debug reader) _ fs.between r fs.rest in
      let checked =
        parts (error_if (not (check_code (proto f.value fs.value d.value))) bad_code) _ d.between r
          d.rest in
      let left = parts (leave reader) _ checked.between r checked.rest in
      subst (Checks check_code)
        (sym (returned (proto f.value fs.value d.value) left.between r left.rest))
        (
          allowed (check_code (proto f.value fs.value d.value)) d.between _ checked.first,
          loads_all (load_function reader check_code calls f.value.source)
              (load_function-Checks calls f.value.source) n.value n.between _ fs.first,
        )

  pub undump-Checks :
      (st : LoadState S) (r : Proto × LoadState S)
      → undump reader check_code st ≡ ok r
      → Checks check_code r.0
  unfolding undump
  undump-Checks st r e =
      let header = parts (load_header reader check_code) _ st r e in
      load_function-Checks 201 _ header.between r header.rest

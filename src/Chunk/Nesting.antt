-- ===== src/Chunk/Nesting.antt =====
-- How deep the functions that `luaU_undump` (lua-5.1.5/src/lundump.c) loads are nested.
use lua_5_1_source_guide.Base.{
  ℕ, zero, suc, ◌+◌, ◌≤◌, ◌<◌, ◌≡◌, sym, ap, subst, ◌∙◌, arith, List, Option, none, Bool, true,
  false, not, if◌then◌else◌,
}
use lua_5_1_source_guide.Chunk.Proto.{Str, Proto, Protos, proto, none_left, next, depth, depth_all}
use lua_5_1_source_guide.Chunk.Undump.{
  LoadState, Load, LoadError, Result, ok, err, fault, bad_code, ◌>>=◌, return, error, error_if,
  load_block, load_char, load_int, load_number, load_text, load_string, load_vector, load_tagged,
  load_constant, load_locvar, load_each, load_list, load_head, load_debug, enter, leave,
  load_functions, load_function, load_header, undump,
}
use lua_5_1_source_guide.Chunk.Checked.{parts, returned}

module _ {S : Type 0} where
  -- The load leaves the depth of calls as it is.
  record Keeps {A : Type 0} (m : Load S A) : Type 0 where
    calls : (st : LoadState S) (r : A × LoadState S) → m st ≡ ok r → r.1.n_ccalls ≡ st.n_ccalls

  bind-Keeps :
      {A B : Type 0} (m : Load S A) (f : A → Load S B)
      → Keeps m
      → ((a : A) → Keeps (f a))
      → Keeps (m >>= f)
  bind-Keeps m f p q = record {
    calls = λ st r e.
        let s = parts m f st r e in (q s.value).calls s.between r s.rest ∙ p.calls st _ s.first;
  }

  same_calls :
      {A : Type 0} (a : A) (st : LoadState S) (r : A × LoadState S)
      → ◌≡◌ {A = Result (A × LoadState S)} (ok (a, st)) (ok r)
      → r.1.n_ccalls ≡ st.n_ccalls
  same_calls {A} a st r e =
      ap
        (λ (q : Result (A × LoadState S)). elim q [
          | ok x ↦ x.1.n_ccalls
          | err w ↦ st.n_ccalls
          | fault ↦ st.n_ccalls
        ])
        (sym e)

  return-Keeps : {A : Type 0} (a : A) → Keeps (return a)
  unfolding return
  return-Keeps a = record { calls = λ st r e. same_calls a st r e }

  error-Keeps : {A : Type 0} (w : LoadError) → Keeps {A = A} (error w)
  unfolding error
  error-Keeps w = record { calls = λ st r e. absurd cc }

  error_if-Keeps : (b : Bool) (w : LoadError) → Keeps (error_if b w)
  unfolding error_if
  error_if-Keeps true w = record { calls = λ st r e. absurd cc }
  error_if-Keeps false w = record { calls = λ st r e. same_calls tt st r e }

  if-Keeps :
      {A : Type 0} (b : Bool) (m n : Load S A) → Keeps m → Keeps n → Keeps (if b then m else n)
  if-Keeps true m n p q = p
  if-Keeps false m n p q = q

module _ {S : Type 0} (reader : S → List ℕ × S) where
  block : (size : ℕ) → Keeps (load_block reader size)
  unfolding load_block
  block size = record { calls = λ st r e. ground arith }

  char : Keeps (load_char reader)
  unfolding load_char
  char = bind-Keeps (load_block reader 1) _ (block 1) (λ b. return-Keeps _)

  int : Keeps (load_int reader)
  unfolding load_int
  int =
      bind-Keeps (load_block reader 4) _ (block 4)
        (λ b. bind-Keeps (error_if _ _) _ (error_if-Keeps _ _) (λ u. return-Keeps _))

  number : Keeps (load_number reader)
  unfolding load_number
  number = bind-Keeps (load_block reader 8) _ (block 8) (λ b. return-Keeps _)

  text : (n : ℕ) → Keeps (load_text reader n)
  unfolding load_text
  text zero = return-Keeps none
  text (suc n) = bind-Keeps (load_block reader (suc n)) _ (block (suc n)) (λ s. return-Keeps _)

  string : Keeps (load_string reader)
  unfolding load_string
  string = bind-Keeps (load_block reader 8) _ (block 8) (λ b. text _)

  vector : Keeps (load_vector reader)
  unfolding load_vector
  vector =
      bind-Keeps (load_int reader) _ int
        (λ n. bind-Keeps (load_block reader _) _ (block _) (λ b. return-Keeps _))

  tagged : (t : ℕ) → Keeps (load_tagged reader t)
  unfolding load_tagged
  tagged t = if-Keeps _ _ _ (return-Keeps _) (
      if-Keeps _ _ _ (bind-Keeps (load_char reader) _ char (λ b. return-Keeps _)) (
        if-Keeps _ _ _ (bind-Keeps (load_number reader) _ number (λ x. return-Keeps _)) (
          if-Keeps _ _ _ (bind-Keeps (load_string reader) _ string (λ s. return-Keeps _))
            (error-Keeps _))))

  constant : Keeps (load_constant reader)
  unfolding load_constant
  constant = bind-Keeps (load_char reader) _ char tagged

  locvar : Keeps (load_locvar reader)
  unfolding load_locvar
  locvar = bind-Keeps (load_string reader) _ string λ name.
      bind-Keeps (load_int reader) _ int
        λ start. bind-Keeps (load_int reader) _ int (λ end. return-Keeps _)

  each : {A : Type 0} (item : Load S A) → Keeps item → (n : ℕ) → Keeps (load_each reader item n)
  unfolding load_each
  each item p zero = return-Keeps _
  each item p (suc n) =
      bind-Keeps item _ p
        (λ x. bind-Keeps (load_each reader item n) _ (each item p n) (λ xs. return-Keeps _))

  list : {A : Type 0} (item : Load S A) → Keeps item → Keeps (load_list reader item)
  unfolding load_list
  list item p = bind-Keeps (load_int reader) _ int (each item p)

  debug : Keeps (load_debug reader)
  unfolding load_debug
  debug = bind-Keeps (load_vector reader) _ vector λ lines.
      bind-Keeps (load_list reader (load_locvar reader)) _ (list _ locvar) λ vars.
        bind-Keeps (load_list reader (load_string reader)) _ (list _ string)
          (λ names. return-Keeps _)

  head : (p : Option Str) → Keeps (load_head reader p)
  unfolding load_head
  head p = bind-Keeps (load_string reader) _ string λ name.
      bind-Keeps (load_int reader) _ int λ line. bind-Keeps (load_int reader) _ int λ last.
        bind-Keeps (load_char reader) _ char λ ups. bind-Keeps (load_char reader) _ char λ params.
          bind-Keeps (load_char reader) _ char λ vararg.
            bind-Keeps (load_char reader) _ char λ stack.
              bind-Keeps (load_vector reader) _ vector λ instructions.
                bind-Keeps (load_list reader (load_constant reader)) _ (list _ constant)
                  (λ constants. return-Keeps _)

  entered :
      (st : LoadState S) (r : Unit {0} × LoadState S)
      → st.n_ccalls < 65535
      → enter reader st ≡ ok r
      → (r.1.n_ccalls ≡ st.n_ccalls + 1) × (st.n_ccalls + 1 ≤ 200)
  unfolding enter
  entered st r h e = ground arith

  left :
      (st : LoadState S) (r : Unit {0} × LoadState S) (n : ℕ)
      → st.n_ccalls ≡ n + 1
      → n < 65535
      → leave reader st ≡ ok r
      → r.1.n_ccalls ≡ n
  unfolding leave
  left st r n h k e = same_calls tt _ r e ∙ omega arith

  -- Within the calls there may be, and with the depth of calls as it was
  Nested : ℕ → ℕ → ℕ → Type 0
  Nested n levels last = (n + levels ≤ 200) × (last ≡ n)

  functions-Nested :
      (item : Load S Proto) (k : ℕ)
      → k ≤ 200
      → ((st : LoadState S) (r : Proto × LoadState S)
          → st.n_ccalls ≡ k
          → item st ≡ ok r
          → Nested k (depth r.0) r.1.n_ccalls)
      → (n : ℕ) (st : LoadState S) (r : Protos × LoadState S) → st.n_ccalls ≡ k
      → load_functions reader item n st ≡ ok r
      → Nested k (depth_all r.0) r.1.n_ccalls
  unfolding load_functions depth_all Nested return
  functions-Nested item k most good zero st r h e = (
    subst (λ (fs : Protos). k + depth_all fs ≤ 200) (sym (returned none_left st r e)) (omega arith),
    same_calls none_left st r e ∙ h,
  )
  functions-Nested item k most good (suc n) st r h e =
      let f = parts item _ st r e in
      let fs = parts (load_functions reader item n) _ f.between r f.rest in
      let one = good st _ h f.first in
      let others = functions-Nested item k most good n f.between _ one.1 fs.first in
      (
        subst (λ (ps : Protos). k + depth_all ps ≤ 200)
            (sym (returned (next f.value fs.value) fs.between r fs.rest))
            (omega (arith, one.0, others.0)),
        same_calls (next f.value fs.value) fs.between r fs.rest ∙ others.1,
      )

  module _ (check_code : Proto → Bool) where
    function-Nested :
        (calls : ℕ) (p : Option Str) (st : LoadState S) (r : Proto × LoadState S)
        → st.n_ccalls < 65535
        → load_function reader check_code calls p st ≡ ok r
        → Nested st.n_ccalls (depth r.0) r.1.n_ccalls
    unfolding load_function depth Nested return
    function-Nested zero p st r h e = absurd cc
    function-Nested (suc calls) p st r h e =
        let a = parts (enter reader) _ st r e in
        let f = parts (load_head reader p) _ a.between r a.rest in
        let n = parts (load_int reader) _ f.between r f.rest in
        let item = load_function reader check_code calls f.value.source in
        let fs = parts (load_functions reader item n.value) _ n.between r n.rest in
        let d = parts (load_debug reader) _ fs.between r fs.rest in
        let whole = proto f.value fs.value d.value in
        let c = parts (error_if (not (check_code whole)) bad_code) _ d.between r d.rest in
        let l = parts (leave reader) _ c.between r c.rest in
        let (up, most) = entered st _ h a.first in
        let before : n.between.n_ccalls ≡ st.n_ccalls + 1 =
          int.calls f.between _ n.first ∙ (head p).calls a.between _ f.first ∙ up in
        let inner =
          functions-Nested item (st.n_ccalls + 1) most
            (λ st' r' same e'.
              subst (λ (k : ℕ). Nested k (depth r'.0) r'.1.n_ccalls) same
                (function-Nested calls f.value.source st' r' (omega (arith, same, most)) e'))
            n.value n.between _ before fs.first in
        let after : c.between.n_ccalls ≡ st.n_ccalls + 1 =
          (error_if-Keeps _ _).calls d.between _ c.first
          ∙ debug.calls fs.between _ d.first
          ∙ inner.1 in
        (
          subst (λ (q : Proto). st.n_ccalls + depth q ≤ 200)
              (sym (returned whole l.between r l.rest)) (omega (arith, inner.0)),
          same_calls whole l.between r l.rest ∙ left c.between _ st.n_ccalls after h l.first,
        )

    header_keeps : Keeps (load_header reader check_code)
    unfolding load_header
    header_keeps = bind-Keeps (load_block reader _) _ (block _) (λ s. error_if-Keeps _ _)

    -- Whatever bytes `luaU_undump` reads, with fewer than 65535 calls active: if it returns a function,
    -- then the functions nested in that one and the calls active are within `LUAI_MAXCCALLS` together,
    -- and as many calls are active as before.
    pub undump-depth :
        (st : LoadState S) (r : Proto × LoadState S)
        → st.n_ccalls < 65535
        → undump reader check_code st ≡ ok r
        → (st.n_ccalls + depth r.0 ≤ 200) × (r.1.n_ccalls ≡ st.n_ccalls)
    unfolding undump Nested
    undump-depth st r h e =
        let a = parts (load_header reader check_code) _ st r e in
        let same = header_keeps.calls st _ a.first in
        let n = function-Nested 201 _ a.between r (omega (arith, same, h)) a.rest in
        (omega (arith, n.0, same), n.1 ∙ same)

-- ===== src/Chunk/Undump.antt =====
-- lua-5.1.5/src/lundump.c. The reader of the stream and `luaG_checkcode` (ldebug.c) are parameters.
-- Memory for what is loaded is not limited here.
use lua_5_1_source_guide.Base.{
  ℕ, zero, suc, ◌+◌, ◌-◌, ◌*◌, ◌%◌, ◌^◌, List, [], ◌∷◌, Option, none, some, Bool, true, false, not,
  ◌==◌, ltb, leb, if◌then◌else◌, take,
}
use lua_5_1_source_guide.Zio.{Zio, read}
use lua_5_1_source_guide.Chunk.Proto.{
  Str, Constant, LocVar, Head, DebugInfo, Proto, Protos, proto, none_left, next,
}
use lua_5_1_source_guide.Chunk.Bytes.{of_le_bytes, of_word_bytes}
use lua_5_1_source_guide.Chunk.Header.{header, header_size, bytes_eq}

pub data LoadError : Type 0 where
  unexpected_end bad_integer bad_constant code_too_deep bad_code bad_header : LoadError

-- `fault`: the stream was read past its block, or the rounds ran out.
pub data Result (A : Type 0) : Type 0 where
  ok : A → Result A
  err : LoadError → Result A
  fault : Result A

-- What a load changes: the stream, and `L->nCcalls`
pub record LoadState (S : Type 0) : Type 0 where
  pub stream : Zio S
  pub n_ccalls : ℕ

abbrev pub max_ccalls : ℕ
max_ccalls = 200

abbrev pub Load : Type 0 → Type 0 → Type 0
Load S A = LoadState S → Result (A × LoadState S)

infixl 5 ◌>>=◌ ◌>>◌
unfoldable pub ◌>>=◌ : {S A B : Type 0} → Load S A → (A → Load S B) → Load S B
◌>>=◌ m f st = elim (m st) [ ok (a, st') ↦ f a st' | err e ↦ err e | fault ↦ fault ]

abbrev ◌>>◌ : {S B : Type 0} → Load S (Unit {0}) → Load S B → Load S B
m >> k = m >>= λ _. k

unfoldable pub return : {S A : Type 0} → A → Load S A
return a st = ok (a, st)

unfoldable pub error : {S A : Type 0} → LoadError → Load S A
error e st = err e

-- `IF (c, why)`
unfoldable pub error_if : {S : Type 0} → Bool → LoadError → Load S (Unit {0})
error_if true e st = err e
error_if false e st = ok (tt, st)

-- `if (f->source==NULL) f->source=p;`
abbrev pub source_or : Option Str → Option Str → Option Str
source_or none p = p
source_or (some s) p = some s

module _ {S : Type 0} (reader : S → List ℕ × S) where
  unfoldable pub load_block : ℕ → Load S (List ℕ)
  load_block size st = elim (read reader st.stream size) [
    | none ↦ fault
    | some (bytes, missing, z) ↦
        if missing == 0 then ok (bytes, record st { stream = z }) else err unexpected_end
  ]

  unfoldable pub load_char : Load S ℕ
  load_char = do bytes ← load_block 1; return (of_le_bytes bytes)

  -- A negative `int` is one with the top bit set.
  unfoldable pub load_int : Load S ℕ
  load_int = do
    bytes ← load_block 4
    error_if (leb (2 ^ 31) (of_le_bytes bytes)) bad_integer
    return (of_le_bytes bytes)

  unfoldable pub load_number : Load S ℕ
  load_number = do bytes ← load_block 8; return (of_le_bytes bytes)

  -- The rest of `LoadString`, once the size is known
  unfoldable pub load_text : ℕ → Load S (Option Str)
  load_text zero = return none
  load_text (suc n) = do s ← load_block (suc n); return (some (take n s))

  unfoldable pub load_string : Load S (Option Str)
  load_string = do bytes ← load_block 8; load_text (of_le_bytes bytes)

  -- `LoadCode`, and the line numbers of `LoadDebug`
  unfoldable pub load_vector : Load S (List ℕ)
  load_vector = do n ← load_int; bytes ← load_block (n * 4); return (of_word_bytes 4 n bytes)

  -- The `switch` of `LoadConstants`
  unfoldable pub load_tagged : ℕ → Load S Constant
  load_tagged t =
      if t == 0
      then return Constant.nil
      else if t == 1
      then (do b ← load_char; return (Constant.boolean (not (b == 0))))
      else if t == 3
      then (do x ← load_number; return (Constant.number x))
      else if t == 4
      then (do s ← load_string; return (Constant.string s))
      else error bad_constant

  unfoldable pub load_constant : Load S Constant
  load_constant = do t ← load_char; load_tagged t

  unfoldable pub load_locvar : Load S LocVar
  load_locvar = do
    name ← load_string
    start ← load_int
    end ← load_int
    return (record { varname = name; startpc = start; endpc = end })

  -- `for (i=0; i<n; i++)`
  unfoldable pub load_each : {A : Type 0} → Load S A → ℕ → Load S (List A)
  load_each item zero = return []
  load_each item (suc n) = do x ← item; xs ← load_each item n; return (x ∷ xs)

  -- A count, and as many items
  unfoldable pub load_list : {A : Type 0} → Load S A → Load S (List A)
  load_list item = do n ← load_int; load_each item n

  unfoldable pub load_debug : Load S DebugInfo
  load_debug = do
    lines ← load_vector
    vars ← load_list load_locvar
    names ← load_list load_string
    return (record { lineinfo = lines; locvars = vars; upvalues = names })

  unfoldable pub load_head : Option Str → Load S Head
  load_head p = do
    name ← load_string
    line ← load_int
    last ← load_int
    ups ← load_char
    params ← load_char
    vararg ← load_char
    stack ← load_char
    instructions ← load_vector
    constants ← load_list load_constant
    return (record {
      source = source_or name p;
      line_defined = line;
      last_line_defined = last;
      nups = ups;
      numparams = params;
      is_vararg = vararg;
      max_stack_size = stack;
      code = instructions;
      k = constants;
    })

  -- `L->nCcalls` is an `unsigned short`.
  unfoldable pub enter : Load S (Unit {0})
  enter st =
      let st' = record st { n_ccalls = (st.n_ccalls + 1) % 2 ^ 16 } in
      if ltb max_ccalls st'.n_ccalls then err code_too_deep else ok (tt, st')

  unfoldable pub leave : Load S (Unit {0})
  leave st = ok (tt, record st { n_ccalls = (st.n_ccalls + 2 ^ 16 - 1) % 2 ^ 16 })

  unfoldable pub load_functions : Load S Proto → ℕ → Load S Protos
  load_functions item zero = return none_left
  load_functions item (suc n) = do f ← item; fs ← load_functions item n; return (next f fs)

  module _ (check_code : Proto → Bool) where
    -- The first argument bounds the nesting of calls.
    unfoldable pub load_function : ℕ → Option Str → Load S Proto
    load_function zero p st = fault
    load_function (suc calls) p st =
        (do
          enter
          f ← load_head p
          n ← load_int
          fs ← load_functions (load_function calls f.source) n
          debug ← load_debug
          error_if (not (check_code (proto f fs debug))) bad_code
          leave
          return (proto f fs debug))
          st

    unfoldable pub load_header : Load S (Unit {0})
    load_header = do s ← load_block header_size; error_if (not (bytes_eq header s)) bad_header

    -- `luaU_undump`, less the name in its messages; no more than 201 calls are ever nested.
    unfoldable pub undump : Load S Proto
    undump = do load_header; load_function 201 (some (b'=' ∷ b'?' ∷ []))

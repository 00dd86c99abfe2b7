-- ===== src/Chunk/Blocks.antt =====
-- `ldump.c` (lua-5.1.5/src) gives the writer the bytes of the format, block by block: what holds of one
-- block and of two parts in sequence holds of a whole dump.
use lua_5_1_source_guide.Base.{
  ℕ, List, [], ◌∷◌, ◌++◌, Option, none, some, Bool, true, false, length,
}
use lua_5_1_source_guide.Chunk.Proto.{
  Str, Constant, LocVar, Head, DebugInfo, Proto, Protos, proto, none_left, next, count,
}
use lua_5_1_source_guide.Chunk.Header.{header}
use lua_5_1_source_guide.Chunk.Dump.{
  DumpState, dump_block, dump_char, dump_int, dump_number, dump_vector, dump_string, dump_constant,
  dump_each_constant, dump_each_locvar, dump_each_string, dump_debug, dump_head, dump_function,
  dump_functions, dump,
}
use lua_5_1_source_guide.Chunk.Format.{
  int_form, byte_form, vector_form, string_form, constant_form, locvar_form, each, list_form,
  debug_form, no_debug, kept, name_form, head_form, function_form, functions_form, chunk_form,
}

module _ {W : Type 0} (writer : W → List ℕ → ℕ × W)
    (Sends : DumpState W → List ℕ → DumpState W → Type 0)
    (sends_block : (b : List ℕ) (d : DumpState W) → Sends d b (dump_block writer b d))
    (sends_both : (d d' d'' : DumpState W) (a b : List ℕ)
      → Sends d a d'
      → Sends d' b d''
      → Sends d (a ++ b) d'')
    (sends_nothing : (d : DumpState W) → Sends d [] d) where
  both :
      {d d' d'' : DumpState W} {a b : List ℕ} → Sends d a d' → Sends d' b d'' → Sends d (a ++ b) d''
  both p q = sends_both _ _ _ _ _ p q

  vector : (xs : List ℕ) (d : DumpState W) → Sends d (vector_form xs) (dump_vector writer xs d)
  unfolding dump_vector dump_int
  vector xs d = both (sends_block _ d) (sends_block _ _)

  string : (s : Option Str) (d : DumpState W) → Sends d (string_form s) (dump_string writer s d)
  unfolding dump_string
  string none d = sends_block _ d
  string (some s) d = both (sends_block _ d) (sends_block _ _)

  constant : (o : Constant) (d : DumpState W) → Sends d (constant_form o) (dump_constant writer o d)
  unfolding dump_constant dump_char dump_number
  constant Constant.nil d = sends_block _ d
  constant (Constant.boolean b) d = both (sends_block _ d) (sends_block _ _)
  constant (Constant.number x) d = both (sends_block _ d) (sends_block _ _)
  constant (Constant.string s) d = both (sends_block _ d) (string s _)

  constants :
      (k : List Constant) (d : DumpState W)
      → Sends d (each constant_form k) (dump_each_constant writer k d)
  unfolding dump_each_constant
  constants [] d = sends_nothing d
  constants (o ∷ k) d = both (constant o d) (constants k _)

  locvars :
      (vs : List LocVar) (d : DumpState W)
      → Sends d (each locvar_form vs) (dump_each_locvar writer vs d)
  unfolding dump_each_locvar dump_int
  locvars [] d = sends_nothing d
  locvars (v ∷ vs) d =
      both (both (string v.varname d) (both (sends_block _ _) (sends_block _ _))) (locvars vs _)

  strings :
      (ss : List (Option Str)) (d : DumpState W)
      → Sends d (each string_form ss) (dump_each_string writer ss d)
  unfolding dump_each_string
  strings [] d = sends_nothing d
  strings (s ∷ ss) d = both (string s d) (strings ss _)

  list :
      {A : Type 0} (form : A → List ℕ) (each_item : List A → DumpState W → DumpState W)
      → ((xs : List A) (d : DumpState W) → Sends d (each form xs) (each_item xs d))
      → (xs : List A) (d : DumpState W)
      → Sends d (list_form form xs) (each_item xs (dump_int writer (length xs) d))
  unfolding dump_int
  list form each_item items xs d = both (sends_block _ d) (items xs _)

  full_debug :
      (f : DebugInfo) (d : DumpState W) → Sends d (debug_form f) (dump_debug writer false f d)
  unfolding dump_debug
  full_debug f d = both (vector f.lineinfo d) (
      both (list locvar_form (dump_each_locvar writer) locvars f.locvars _)
        (list string_form (dump_each_string writer) strings f.upvalues _))

  debug :
      (strip : Bool) (f : DebugInfo) (d : DumpState W)
      → Sends d (debug_form (kept strip f)) (dump_debug writer strip f d)
  unfolding dump_debug
  debug true f d = full_debug no_debug d
  debug false f d = full_debug f d

  head :
      (strip : Bool) (p : Option Str) (f : Head) (d : DumpState W)
      → Sends d (head_form strip p f) (dump_head writer strip p f d)
  unfolding dump_head dump_int dump_char
  head strip p f d =
      let next_block = λ (b : List ℕ) (e : DumpState W). sends_block b e in
      both (string (name_form strip p f.source) d) (
        both (next_block (int_form f.line_defined) _) (
          both (next_block (int_form f.last_line_defined) _) (
            both (next_block (byte_form f.nups) _) (
              both (next_block (byte_form f.numparams) _) (
                both (next_block (byte_form f.is_vararg) _) (
                  both (next_block (byte_form f.max_stack_size) _) (
                    both (vector f.code _)
                      (list constant_form (dump_each_constant writer) constants f.k _))))))))

  mutual
    unfolding dump_function function_form dump_int

    function :
        (strip : Bool) (p : Option Str) (f : Proto) (d : DumpState W)
        → Sends d (function_form strip p f) (dump_function writer strip p f d)
    function strip p (proto f fs dbg) d = both (head strip p f d) (
        both (sends_block (int_form (count fs)) _)
          (both (functions strip f.source fs _) (debug strip dbg _)))

    functions :
        (strip : Bool) (p : Option Str) (fs : Protos) (d : DumpState W)
        → Sends d (functions_form strip p fs) (dump_functions writer strip p fs d)
    functions strip p none_left d = sends_nothing d
    functions strip p (next f fs) d = both (function strip p f d) (functions strip p fs _)

  pub sends-dump :
      (strip : Bool) (f : Proto) (w : W)
      → Sends (record { written = w; status = 0 }) (chunk_form strip f) (dump writer strip f w)
  unfolding dump
  sends-dump strip f w = both (sends_block header _) (function strip none f _)

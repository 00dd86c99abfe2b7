-- ===== src/Chunk/Format.antt =====
-- The format of a precompiled chunk as plain byte strings: what ldump.c writes and lundump.c reads.
use lua_5_1_source_guide.Base.{
  ℕ, ◌+◌, ◌%◌, List, [], ◌∷◌, ◌++◌, Option, none, some, Bool, ◌||◌, if◌then◌else◌, length,
}
use lua_5_1_source_guide.Chunk.Proto.{
  Str, Constant, LocVar, Head, DebugInfo, Proto, Protos, proto, none_left, next, count,
}
use lua_5_1_source_guide.Chunk.Bytes.{le_bytes, word_bytes}
use lua_5_1_source_guide.Chunk.Header.{header, name_eq}
use lua_5_1_source_guide.Chunk.Dump.{bool_value}

abbrev pub int_form : ℕ → List ℕ
int_form x = le_bytes 4 x

abbrev pub byte_form : ℕ → List ℕ
byte_form x = (x % 256) ∷ []

abbrev pub vector_form : List ℕ → List ℕ
vector_form xs = int_form (length xs) ++ word_bytes 4 xs

abbrev pub string_form : Option Str → List ℕ
string_form none = le_bytes 8 0
string_form (some s) = le_bytes 8 (length s + 1) ++ (s ++ 0 ∷ [])

abbrev pub constant_form : Constant → List ℕ
constant_form Constant.nil = byte_form 0
constant_form (Constant.boolean b) = byte_form 1 ++ byte_form (bool_value b)
constant_form (Constant.number x) = byte_form 3 ++ le_bytes 8 x
constant_form (Constant.string s) = byte_form 4 ++ string_form s

abbrev pub locvar_form : LocVar → List ℕ
locvar_form v = string_form v.varname ++ (int_form v.startpc ++ int_form v.endpc)

-- The items one after the other
abbrev pub each : {A : Type 0} → (A → List ℕ) → List A → List ℕ
each form [] = []
each form (x ∷ xs) = form x ++ each form xs

abbrev pub list_form : {A : Type 0} → (A → List ℕ) → List A → List ℕ
list_form form xs = int_form (length xs) ++ each form xs

abbrev pub debug_form : DebugInfo → List ℕ
debug_form d =
    vector_form d.lineinfo ++ (list_form locvar_form d.locvars ++ list_form string_form d.upvalues)

-- What stripping leaves
abbrev pub no_debug : DebugInfo
no_debug = record { lineinfo = []; locvars = []; upvalues = [] }

abbrev pub kept : Bool → DebugInfo → DebugInfo
kept strip d = if strip then no_debug else d

-- The name written for a function inside one with source `p`
abbrev pub name_form : Bool → Option Str → Option Str → Option Str
name_form strip p source = if name_eq source p || strip then none else source

abbrev pub head_form : Bool → Option Str → Head → List ℕ
head_form strip p f =
    string_form (name_form strip p f.source)
    ++ (int_form f.line_defined
        ++ (int_form f.last_line_defined
            ++ (byte_form f.nups
                ++ (byte_form f.numparams
                    ++ (byte_form f.is_vararg
                        ++ (byte_form f.max_stack_size
                            ++ (vector_form f.code ++ list_form constant_form f.k)))))))

unfoldable mutual
  pub function_form : Bool → Option Str → Proto → List ℕ
  function_form strip p (proto f fs d) =
      head_form strip p f
      ++ (int_form (count fs) ++ (functions_form strip f.source fs ++ debug_form (kept strip d)))

  pub functions_form : Bool → Option Str → Protos → List ℕ
  functions_form strip p none_left = []
  functions_form strip p (next f fs) = function_form strip p f ++ functions_form strip p fs

-- A whole chunk
abbrev pub chunk_form : Bool → Proto → List ℕ
chunk_form strip f = header ++ function_form strip none f

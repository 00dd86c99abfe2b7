-- ===== src/Chunk/Dump.antt =====
-- lua-5.1.5/src/ldump.c. The writer is a parameter: from its own state and a block it gives a status
-- (0 for success) and its next state.
use lua_5_1_source_guide.Base.{
  ℕ, ◌+◌, ◌%◌, List, [], ◌∷◌, ◌++◌, Option, none, some, Bool, true, false, ◌||◌, ◌==◌,
  if◌then◌else◌, length,
}
use lua_5_1_source_guide.Chunk.Proto.{
  Str, Constant, LocVar, Head, DebugInfo, Proto, Protos, proto, none_left, next, count,
}
use lua_5_1_source_guide.Chunk.Bytes.{le_bytes, word_bytes}
use lua_5_1_source_guide.Chunk.Header.{header, name_eq}

-- `L` and `strip` are passed beside it.
pub record DumpState (W : Type 0) : Type 0 where
  pub written : W
  pub status : ℕ

-- `LUA_TNIL`, `LUA_TBOOLEAN`, `LUA_TNUMBER`, `LUA_TSTRING` of lua.h
abbrev pub tag : Constant → ℕ
tag Constant.nil = 0
tag (Constant.boolean b) = 1
tag (Constant.number x) = 3
tag (Constant.string s) = 4

abbrev pub bool_value : Bool → ℕ
bool_value true = 1
bool_value false = 0

module _ {W : Type 0} (writer : W → List ℕ → ℕ × W) where
  pub write_through : ℕ × W → DumpState W
  write_through (status, w) = record { written = w; status = status }

  unfoldable pub dump_block : List ℕ → DumpState W → DumpState W
  unfolding write_through
  dump_block b d = if d.status == 0 then write_through (writer d.written b) else d

  unfoldable pub dump_char : ℕ → DumpState W → DumpState W
  dump_char y d = dump_block ((y % 256) ∷ []) d

  unfoldable pub dump_int : ℕ → DumpState W → DumpState W
  dump_int x d = dump_block (le_bytes 4 x) d

  unfoldable pub dump_number : ℕ → DumpState W → DumpState W
  dump_number x d = dump_block (le_bytes 8 x) d

  -- The vectors dumped are of 32-bit words: instructions and line numbers.
  unfoldable pub dump_vector : List ℕ → DumpState W → DumpState W
  dump_vector xs d = dump_block (word_bytes 4 xs) (dump_int (length xs) d)

  unfoldable pub dump_string : Option Str → DumpState W → DumpState W
  dump_string none d = dump_block (le_bytes 8 0) d
  dump_string (some s) d = dump_block (s ++ 0 ∷ []) (dump_block (le_bytes 8 (length s + 1)) d)

  unfoldable pub dump_constant : Constant → DumpState W → DumpState W
  dump_constant Constant.nil d = dump_char 0 d
  dump_constant (Constant.boolean b) d = dump_char (bool_value b) (dump_char 1 d)
  dump_constant (Constant.number x) d = dump_number x (dump_char 3 d)
  dump_constant (Constant.string s) d = dump_string s (dump_char 4 d)

  unfoldable pub dump_each_constant : List Constant → DumpState W → DumpState W
  dump_each_constant [] d = d
  dump_each_constant (o ∷ k) d = dump_each_constant k (dump_constant o d)

  unfoldable pub dump_each_locvar : List LocVar → DumpState W → DumpState W
  dump_each_locvar [] d = d
  dump_each_locvar (v ∷ vs) d =
      dump_each_locvar vs (dump_int v.endpc (dump_int v.startpc (dump_string v.varname d)))

  unfoldable pub dump_each_string : List (Option Str) → DumpState W → DumpState W
  dump_each_string [] d = d
  dump_each_string (s ∷ ss) d = dump_each_string ss (dump_string s d)

  unfoldable pub dump_debug : Bool → DebugInfo → DumpState W → DumpState W
  dump_debug strip f d =
      let d₁ = dump_vector (if strip then [] else f.lineinfo) d in
      let locvars = if strip then [] else f.locvars in
      let d₂ = dump_each_locvar locvars (dump_int (length locvars) d₁) in
      let upvalues = if strip then [] else f.upvalues in
      dump_each_string upvalues (dump_int (length upvalues) d₂)

  -- The part of `DumpFunction` and `DumpConstants` before the nested functions; `p` is the source of
  -- the enclosing function.
  unfoldable pub dump_head : Bool → Option Str → Head → DumpState W → DumpState W
  dump_head strip p f d =
      let d₁ = dump_string (if name_eq f.source p || strip then none else f.source) d in
      let d₂ = dump_int f.last_line_defined (dump_int f.line_defined d₁) in
      let d₃ = dump_char f.is_vararg (dump_char f.numparams (dump_char f.nups d₂)) in
      let d₄ = dump_vector f.code (dump_char f.max_stack_size d₃) in
      dump_each_constant f.k (dump_int (length f.k) d₄)

  unfoldable mutual
    pub dump_function : Bool → Option Str → Proto → DumpState W → DumpState W
    dump_function strip p (proto f fs debug) d =
        dump_debug strip debug
          (dump_functions strip f.source fs (dump_int (count fs) (dump_head strip p f d)))

    pub dump_functions : Bool → Option Str → Protos → DumpState W → DumpState W
    dump_functions strip p none_left d = d
    dump_functions strip p (next f fs) d = dump_functions strip p fs (dump_function strip p f d)

  -- `luaU_dump`: the status, and what the writer has.
  unfoldable pub dump : Bool → Proto → W → DumpState W
  dump strip f w =
      dump_function strip none f (dump_block header (record { written = w; status = 0 }))

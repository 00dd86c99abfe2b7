-- ===== src/Chunk/Proto.antt =====
-- lua-5.1.5/src/lobject.h: the function prototype, without its links to the collector. A TString is
-- the list of its bytes, NULL is `none`; a `lua_Number` is its 64-bit pattern. The sizes beside the
-- arrays of the source are the lengths of the lists.
use lua_5_1_source_guide.Base.{ℕ, suc, max, List, Option, Bool}

abbrev pub Str : Type 0
Str = List ℕ

-- The types of constant that a compiled function has
pub data Constant : Type 0 where
  nil : Constant
  boolean : Bool → Constant
  number : ℕ → Constant
  string : Option Str → Constant

pub record LocVar : Type 0 where
  pub varname : Option Str
  pub startpc : ℕ
  pub endpc : ℕ

pub record Head : Type 0 where
  pub source : Option Str
  pub line_defined : ℕ
  pub last_line_defined : ℕ
  pub nups : ℕ
  pub numparams : ℕ
  pub is_vararg : ℕ
  pub max_stack_size : ℕ
  pub code : List ℕ
  pub k : List Constant

pub record DebugInfo : Type 0 where
  pub lineinfo : List ℕ
  pub locvars : List LocVar
  pub upvalues : List (Option Str)

mutual
  pub data Proto : Type 0 where
    proto : Head → Protos → DebugInfo → Proto

  pub data Protos : Type 0 where
    none_left : Protos
    next : Proto → Protos → Protos

unfoldable pub count : Protos → ℕ
count none_left = 0
count (next f fs) = suc (count fs)

-- How deep functions are nested
unfoldable mutual
  pub depth : Proto → ℕ
  depth (proto h fs d) = suc (depth_all fs)

  pub depth_all : Protos → ℕ
  depth_all none_left = 0
  depth_all (next f fs) = max (depth f) (depth_all fs)

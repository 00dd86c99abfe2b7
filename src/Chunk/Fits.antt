-- ===== src/Chunk/Fits.antt =====
-- The values of a prototype fit the fields of the format: what the C types of lobject.h, and the
-- limit on non-negative `int` sizes, give of every function the compiler builds.
use lua_5_1_source_guide.Base.{ℕ, ◌+◌, ◌^◌, ◌<◌, List, Option, none, some, length, All}
use lua_5_1_source_guide.Chunk.Proto.{
  Str, Constant, LocVar, Head, DebugInfo, Proto, Protos, proto, none_left, next, count,
}

-- A non-negative `int`
abbrev pub IntFits : ℕ → Type 0
IntFits x = x < 2 ^ 31

abbrev pub StrFits : Option Str → Type 0
StrFits none = Unit
StrFits (some s) = length s + 1 < 256 ^ 8

abbrev pub ConstantFits : Constant → Type 0
ConstantFits Constant.nil = Unit
ConstantFits (Constant.boolean b) = Unit
ConstantFits (Constant.number x) = x < 256 ^ 8
ConstantFits (Constant.string s) = StrFits s

abbrev pub LocVarFits : LocVar → Type 0
LocVarFits v = StrFits v.varname × IntFits v.startpc × IntFits v.endpc

abbrev pub WordsFit : List ℕ → Type 0
WordsFit xs = IntFits (length xs) × All (λ x. x < 256 ^ 4) xs

pub record HeadFits (f : Head) : Type 0 where
  pub source : StrFits f.source
  pub line_defined : IntFits f.line_defined
  pub last_line_defined : IntFits f.last_line_defined
  pub nups : f.nups < 256
  pub numparams : f.numparams < 256
  pub is_vararg : f.is_vararg < 256
  pub max_stack_size : f.max_stack_size < 256
  pub code : WordsFit f.code
  pub k_length : IntFits (length f.k)
  pub k : All ConstantFits f.k

pub record DebugFits (d : DebugInfo) : Type 0 where
  pub lineinfo : WordsFit d.lineinfo
  pub locvars_length : IntFits (length d.locvars)
  pub locvars : All LocVarFits d.locvars
  pub upvalues_length : IntFits (length d.upvalues)
  pub upvalues : All StrFits d.upvalues

-- Every function, the nested ones included
abbrev mutual
  pub ProtoFits : Proto → Type 0
  ProtoFits (proto f fs d) = HeadFits f × IntFits (count fs) × ProtosFit fs × DebugFits d

  pub ProtosFit : Protos → Type 0
  ProtosFit none_left = Unit
  ProtosFit (next f fs) = ProtoFits f × ProtosFit fs

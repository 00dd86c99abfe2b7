-- ===== src/Code/Preserved/Emit.antt =====
-- The operations of Code/Emit (lua-5.1.5/src/lcode.c) keep the state valid.
use lua_5_1_source_guide.Base.{ℕ}
use lua_5_1_source_guide.Base.Int.{ℤ}
use lua_5_1_source_guide.Opcodes.{IsInstruction}
use lua_5_1_source_guide.Opcodes.Table.{OpCode}
use lua_5_1_source_guide.Code.State.{ExpDesc}
use lua_5_1_source_guide.Code.Emit.{
  dischargejpc, luak_code, code_abc, code_abx, code_asbx, luak_nil, luak_jump, luak_ret, condjump,
  patchtohere, patchlist, freeexp,
}
use lua_5_1_source_guide.Code.Valid.{Keeps}
use lua_5_1_source_guide.Code.Primitives.{steps}

pub dischargejpc-Keeps : Keeps (dischargejpc)
unfolding dischargejpc
dischargejpc-Keeps = search (steps) depth 12

pub luak_code-Keeps : (i line : ℕ) → IsInstruction i → Keeps (luak_code i line)
unfolding luak_code
luak_code-Keeps i line h = search (steps, dischargejpc-Keeps) depth 12

pub code_abc-Keeps : (o : OpCode) (a : ℕ) (b : ℕ) (c : ℕ) → Keeps (code_abc o a b c)
unfolding code_abc
code_abc-Keeps o a b c = search (steps, luak_code-Keeps) depth 12

pub code_abx-Keeps : (o : OpCode) (a : ℕ) (bc : ℕ) → Keeps (code_abx o a bc)
unfolding code_abx
code_abx-Keeps o a bc = search (steps, luak_code-Keeps) depth 12

pub code_asbx-Keeps : (o : OpCode) (a : ℕ) (sbx : ℤ) → Keeps (code_asbx o a sbx)
unfolding code_asbx
code_asbx-Keeps o a sbx = search (steps, code_abx-Keeps) depth 12

pub luak_nil-Keeps : (from : ℕ) (n : ℕ) → Keeps (luak_nil from n)
unfolding luak_nil
luak_nil-Keeps from n = search (steps, code_abc-Keeps) depth 12

pub luak_jump-Keeps : Keeps (luak_jump)
unfolding luak_jump
luak_jump-Keeps = search (steps, code_asbx-Keeps) depth 12

pub luak_ret-Keeps : (first : ℕ) (nret : ℤ) → Keeps (luak_ret first nret)
unfolding luak_ret
luak_ret-Keeps first nret = search (steps, code_abc-Keeps) depth 12

pub condjump-Keeps : (o : OpCode) (a : ℕ) (b : ℕ) (c : ℕ) → Keeps (condjump o a b c)
unfolding condjump
condjump-Keeps o a b c = search (steps, code_abc-Keeps, luak_jump-Keeps) depth 12

pub patchtohere-Keeps : (list : ℤ) → Keeps (patchtohere list)
unfolding patchtohere
patchtohere-Keeps list = search (steps) depth 12

pub patchlist-Keeps : (list : ℤ) (target : ℕ) → Keeps (patchlist list target)
unfolding patchlist
patchlist-Keeps list target = search (steps, patchtohere-Keeps) depth 12

pub freeexp-Keeps : (e : ExpDesc) → Keeps (freeexp e)
unfolding freeexp
freeexp-Keeps e = search (steps) depth 12

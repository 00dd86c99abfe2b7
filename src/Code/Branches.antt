-- ===== src/Code/Branches.antt =====
-- lua-5.1.5/src/lcode.c: assignments, calls of methods, and expressions as conditions.
use lua_5_1_source_guide.Base.{
  ℕ, ◌-◌, Bool, true, false, not, ◌&&◌, ◌==◌, if◌then◌else◌, length, take,
}
use lua_5_1_source_guide.Base.Int.{ℤ, pos}
use lua_5_1_source_guide.Opcodes.{get_opcode, get_arg_a, get_arg_b, set_arg_a, no_reg}
use lua_5_1_source_guide.Opcodes.Table.{OpCode, op_value, test_t_mode}
use lua_5_1_source_guide.Jumps.{no_jump, at, getjumpcontrol}
use lua_5_1_source_guide.Code.State.{
  ExpKind, vnil, vtrue, vfalse, vk, vknum, vlocal, vupval, vglobal, vindexed, vjmp, vrelocable,
  vnonreloc, ExpDesc, Gen, ◌>>=◌, ◌>>◌, return, fail, get, modify, assert, when◌then◌else◌,
  assertion,
}
use lua_5_1_source_guide.Code.Emit.{
  luak_concat, edit, remove_values, code_abc, code_abx, condjump, patchtohere, reserveregs, freeexp,
}
use lua_5_1_source_guide.Code.Constants.{Numbers}
use lua_5_1_source_guide.Code.Discharge.{
  relocable, in_register, dischargevars, discharge2anyreg, exp2reg, exp2anyreg, exp2rk,
}

abbrev pub is_relocable : ExpKind → Bool
is_relocable vrelocable = true
is_relocable _ = false

-- `getjumpcontrol(fs, pc)` for the jump of an expression
unfoldable pub control_of : ExpDesc → Gen ℕ
control_of e = get (λ fs. getjumpcontrol fs.code e.info)

unfoldable pub invertjump : ExpDesc → Gen (Unit {0})
invertjump e = do
  pc ← control_of e
  op ← get (λ fs. get_opcode (at fs.code pc))
  assert (
      test_t_mode op
      && not (op == op_value OpCode.op_testset)
      && not (op == op_value OpCode.op_test))
  edit pc (λ i. set_arg_a i (if get_arg_a i == 0 then 1 else 0))

-- `fs->pc--`
unfoldable pub drop_last : Gen (Unit {0})
drop_last = modify (λ fs. record fs {
  code = take (length fs.code - 1) fs.code;
  lineinfo = take (length fs.lineinfo - 1) fs.lineinfo;
})

module _ (num : Numbers) where
  unfoldable pub storevar_as : ExpKind → ExpDesc → ExpDesc → Gen (Unit {0})
  storevar_as vlocal var ex = freeexp ex >> exp2reg num ex var.info >> return tt
  storevar_as vupval var ex = do
    e ← exp2anyreg num ex
    code_abc OpCode.op_setupval e.info var.info 0
    freeexp e
  storevar_as vglobal var ex = do
    e ← exp2anyreg num ex
    code_abx OpCode.op_setglobal e.info var.info
    freeexp e
  storevar_as vindexed var ex = do
    e ← exp2rk num ex
    code_abc OpCode.op_settable var.info var.aux e.0
    freeexp e.1
  storevar_as _ var ex = fail assertion

  unfoldable pub storevar : ExpDesc → ExpDesc → Gen (Unit {0})
  storevar var ex = storevar_as var.k var ex

  unfoldable pub luak_self : ExpDesc → ExpDesc → Gen ExpDesc
  luak_self e key = do
    e₁ ← exp2anyreg num e
    freeexp e₁
    func ← get (λ fs. fs.freereg)
    reserveregs 2
    rk ← exp2rk num key
    code_abc OpCode.op_self func e₁.info rk.0
    freeexp rk.1
    return (in_register e₁ func)

  -- The jump, and the expression
  unfoldable pub test_set : ExpDesc → ℕ → Gen (ℤ × ExpDesc)
  test_set e cond = do
    e₁ ← discharge2anyreg num e
    freeexp e₁
    j ← condjump OpCode.op_testset no_reg e₁.info cond
    return (j, e₁)

  unfoldable pub jumponcond : ExpDesc → ℕ → Gen (ℤ × ExpDesc)
  jumponcond e cond = do
    ie ← get (λ fs. at fs.code e.info)
    when is_relocable e.k && get_opcode ie == op_value OpCode.op_not
        then (do
          drop_last
          j ← condjump OpCode.op_test (get_arg_b ie) 0 (if cond == 0 then 1 else 0)
          return (j, e))
        else test_set e cond

  -- The `switch` of `luaK_goiftrue`
  unfoldable pub true_jump : ExpKind → ExpDesc → Gen (ℤ × ExpDesc)
  true_jump vk e = return (no_jump, e)
  true_jump vknum e = return (no_jump, e)
  true_jump vtrue e = return (no_jump, e)
  true_jump vjmp e = invertjump e >> return (pos e.info, e)
  true_jump _ e = jumponcond e 0

  unfoldable pub goiftrue : ExpDesc → Gen ExpDesc
  goiftrue e = do
    e₁ ← dischargevars e
    j ← true_jump e₁.k e₁
    f ← luak_concat (j.1).f j.0
    patchtohere (j.1).t
    return (record (j.1) { f = f; t = no_jump })

  -- The `switch` of `luaK_goiffalse`
  unfoldable pub false_jump : ExpKind → ExpDesc → Gen (ℤ × ExpDesc)
  false_jump vnil e = return (no_jump, e)
  false_jump vfalse e = return (no_jump, e)
  false_jump vjmp e = return (pos e.info, e)
  false_jump _ e = jumponcond e 1

  unfoldable pub goiffalse : ExpDesc → Gen ExpDesc
  goiffalse e = do
    e₁ ← dischargevars e
    j ← false_jump e₁.k e₁
    t ← luak_concat (j.1).t j.0
    patchtohere (j.1).f
    return (record (j.1) { t = t; f = no_jump })

  unfoldable pub not_of_register : ExpDesc → Gen ExpDesc
  not_of_register e = do
    e₁ ← discharge2anyreg num e
    freeexp e₁
    pc ← code_abc OpCode.op_not 0 e₁.info 0
    return (relocable e₁ pc)

  -- The `switch` of `codenot`
  unfoldable pub codenot_as : ExpKind → ExpDesc → Gen ExpDesc
  codenot_as vnil e = return (record e { k = vtrue })
  codenot_as vfalse e = return (record e { k = vtrue })
  codenot_as vk e = return (record e { k = vfalse })
  codenot_as vknum e = return (record e { k = vfalse })
  codenot_as vtrue e = return (record e { k = vfalse })
  codenot_as vjmp e = invertjump e >> return e
  codenot_as vrelocable e = not_of_register e
  codenot_as vnonreloc e = not_of_register e
  codenot_as _ e = fail assertion

  unfoldable pub codenot : ExpDesc → Gen ExpDesc
  codenot e = do
    e₁ ← dischargevars e
    e₂ ← codenot_as e₁.k e₁
    remove_values e₂.t
    remove_values e₂.f
    return (record e₂ { f = e₂.t; t = e₂.f })

  unfoldable pub indexed : ExpDesc → ExpDesc → Gen ExpDesc
  indexed t key = do rk ← exp2rk num key; return (record t { k = vindexed; aux = rk.0 })

-- ===== src/Code/Preserved/Branches.antt =====
-- The operations of Code/Branches (lua-5.1.5/src/lcode.c) keep the state valid.
use lua_5_1_source_guide.Base.{ℕ}
use lua_5_1_source_guide.Code.State.{
  ExpKind, vnil, vtrue, vfalse, vk, vknum, vlocal, vupval, vglobal, vindexed, vjmp, vrelocable,
  vnonreloc, ExpDesc,
}
use lua_5_1_source_guide.Code.Constants.{Numbers}
use lua_5_1_source_guide.Code.Branches.{
  control_of, invertjump, storevar_as, storevar, luak_self, test_set, jumponcond, true_jump,
  goiftrue, false_jump, goiffalse, not_of_register, codenot_as, codenot, indexed,
}
use lua_5_1_source_guide.Code.Valid.{Keeps}
use lua_5_1_source_guide.Code.Primitives.{steps}
use lua_5_1_source_guide.Code.Preserved.Emit.{
  code_abc-Keeps, code_abx-Keeps, condjump-Keeps, patchtohere-Keeps, freeexp-Keeps,
}
use lua_5_1_source_guide.Code.Preserved.Discharge.{
  dischargevars-Keeps, discharge2anyreg-Keeps, exp2reg-Keeps, exp2anyreg-Keeps, exp2rk-Keeps,
}

pub control_of-Keeps : (e : ExpDesc) → Keeps (control_of e)
unfolding control_of
control_of-Keeps e = search (steps) depth 12

pub invertjump-Keeps : (e : ExpDesc) → Keeps (invertjump e)
unfolding invertjump
invertjump-Keeps e = search (steps, control_of-Keeps) depth 12

module _ (num : Numbers) where
  pub storevar_as-Keeps :
      (k : ExpKind) (var : ExpDesc) (ex : ExpDesc) → Keeps (storevar_as num k var ex)
  unfolding storevar_as
  storevar_as-Keeps vlocal var ex =
      search
        (
          steps, freeexp-Keeps, exp2reg-Keeps, exp2anyreg-Keeps, exp2rk-Keeps, code_abc-Keeps,
          code_abx-Keeps,
        )
        depth 12
  storevar_as-Keeps vupval var ex =
      search
        (
          steps, freeexp-Keeps, exp2reg-Keeps, exp2anyreg-Keeps, exp2rk-Keeps, code_abc-Keeps,
          code_abx-Keeps,
        )
        depth 12
  storevar_as-Keeps vglobal var ex =
      search
        (
          steps, freeexp-Keeps, exp2reg-Keeps, exp2anyreg-Keeps, exp2rk-Keeps, code_abc-Keeps,
          code_abx-Keeps,
        )
        depth 12
  storevar_as-Keeps vindexed var ex =
      search
        (
          steps, freeexp-Keeps, exp2reg-Keeps, exp2anyreg-Keeps, exp2rk-Keeps, code_abc-Keeps,
          code_abx-Keeps,
        )
        depth 12
  storevar_as-Keeps _ var ex =
      search
        (
          steps, freeexp-Keeps, exp2reg-Keeps, exp2anyreg-Keeps, exp2rk-Keeps, code_abc-Keeps,
          code_abx-Keeps,
        )
        depth 12

  pub storevar-Keeps : (var : ExpDesc) (ex : ExpDesc) → Keeps (storevar num var ex)
  unfolding storevar
  storevar-Keeps var ex = search (steps, storevar_as-Keeps) depth 12

  pub luak_self-Keeps : (e : ExpDesc) (key : ExpDesc) → Keeps (luak_self num e key)
  unfolding luak_self
  luak_self-Keeps e key =
      search (steps, exp2anyreg-Keeps, freeexp-Keeps, exp2rk-Keeps, code_abc-Keeps) depth 12

  pub test_set-Keeps : (e : ExpDesc) (cond : ℕ) → Keeps (test_set num e cond)
  unfolding test_set
  test_set-Keeps e cond =
      search (steps, discharge2anyreg-Keeps, freeexp-Keeps, condjump-Keeps) depth 12

  pub jumponcond-Keeps : (e : ExpDesc) (cond : ℕ) → Keeps (jumponcond num e cond)
  unfolding jumponcond
  jumponcond-Keeps e cond = search (steps, condjump-Keeps, test_set-Keeps) depth 12

  pub true_jump-Keeps : (k : ExpKind) (e : ExpDesc) → Keeps (true_jump num k e)
  unfolding true_jump
  true_jump-Keeps vk e = search (steps, invertjump-Keeps, jumponcond-Keeps) depth 12
  true_jump-Keeps vknum e = search (steps, invertjump-Keeps, jumponcond-Keeps) depth 12
  true_jump-Keeps vtrue e = search (steps, invertjump-Keeps, jumponcond-Keeps) depth 12
  true_jump-Keeps vjmp e = search (steps, invertjump-Keeps, jumponcond-Keeps) depth 12
  true_jump-Keeps _ e = search (steps, invertjump-Keeps, jumponcond-Keeps) depth 12

  pub goiftrue-Keeps : (e : ExpDesc) → Keeps (goiftrue num e)
  unfolding goiftrue
  goiftrue-Keeps e =
      search (steps, dischargevars-Keeps, true_jump-Keeps, patchtohere-Keeps) depth 12

  pub false_jump-Keeps : (k : ExpKind) (e : ExpDesc) → Keeps (false_jump num k e)
  unfolding false_jump
  false_jump-Keeps vnil e = search (steps, jumponcond-Keeps) depth 12
  false_jump-Keeps vfalse e = search (steps, jumponcond-Keeps) depth 12
  false_jump-Keeps vjmp e = search (steps, jumponcond-Keeps) depth 12
  false_jump-Keeps _ e = search (steps, jumponcond-Keeps) depth 12

  pub goiffalse-Keeps : (e : ExpDesc) → Keeps (goiffalse num e)
  unfolding goiffalse
  goiffalse-Keeps e =
      search (steps, dischargevars-Keeps, false_jump-Keeps, patchtohere-Keeps) depth 12

  pub not_of_register-Keeps : (e : ExpDesc) → Keeps (not_of_register num e)
  unfolding not_of_register
  not_of_register-Keeps e =
      search (steps, discharge2anyreg-Keeps, freeexp-Keeps, code_abc-Keeps) depth 12

  pub codenot_as-Keeps : (k : ExpKind) (e : ExpDesc) → Keeps (codenot_as num k e)
  unfolding codenot_as
  codenot_as-Keeps vnil e = search (steps, invertjump-Keeps, not_of_register-Keeps) depth 12
  codenot_as-Keeps vfalse e = search (steps, invertjump-Keeps, not_of_register-Keeps) depth 12
  codenot_as-Keeps vk e = search (steps, invertjump-Keeps, not_of_register-Keeps) depth 12
  codenot_as-Keeps vknum e = search (steps, invertjump-Keeps, not_of_register-Keeps) depth 12
  codenot_as-Keeps vtrue e = search (steps, invertjump-Keeps, not_of_register-Keeps) depth 12
  codenot_as-Keeps vjmp e = search (steps, invertjump-Keeps, not_of_register-Keeps) depth 12
  codenot_as-Keeps vrelocable e = search (steps, invertjump-Keeps, not_of_register-Keeps) depth 12
  codenot_as-Keeps vnonreloc e = search (steps, invertjump-Keeps, not_of_register-Keeps) depth 12
  codenot_as-Keeps _ e = search (steps, invertjump-Keeps, not_of_register-Keeps) depth 12

  pub codenot-Keeps : (e : ExpDesc) → Keeps (codenot num e)
  unfolding codenot
  codenot-Keeps e = search (steps, dischargevars-Keeps, codenot_as-Keeps) depth 12

  pub indexed-Keeps : (t : ExpDesc) (key : ExpDesc) → Keeps (indexed num t key)
  unfolding indexed
  indexed-Keeps t key = search (steps, exp2rk-Keeps) depth 12

-- ===== src/Code/Preserved/Discharge.antt =====
-- The operations of Code/Discharge (lua-5.1.5/src/lcode.c) keep the state valid.
use lua_5_1_source_guide.Base.{ℕ, List, Bool}
use lua_5_1_source_guide.Base.Int.{ℤ}
use lua_5_1_source_guide.Code.State.{
  ExpKind, vvoid, vnil, vtrue, vfalse, vk, vknum, vlocal, vupval, vglobal, vindexed, vjmp,
  vrelocable, vnonreloc, vcall, vvararg, ExpDesc, Gen,
}
use lua_5_1_source_guide.Code.Constants.{Numbers, string_k, number_k, bool_k, nil_k}
use lua_5_1_source_guide.Code.Discharge.{
  setreturns_as, setreturns, setoneret_as, setoneret, dischargevars_as, dischargevars, code_label,
  load_as, discharge2reg, discharge2anyreg, load_values, close_jumps, exp2reg, exp2nextreg,
  exp2anyreg, exp2val, in_any_register, as_constant, exp2rk_as, exp2rk,
}
use lua_5_1_source_guide.Code.Valid.{Keeps}
use lua_5_1_source_guide.Code.Primitives.{steps, addk-Keeps}
use lua_5_1_source_guide.Code.Preserved.Emit.{
  code_abc-Keeps, code_abx-Keeps, luak_nil-Keeps, luak_jump-Keeps, patchtohere-Keeps, freeexp-Keeps,
}

pub setreturns_as-Keeps : (k : ExpKind) (e : ExpDesc) (n : ℤ) → Keeps (setreturns_as k e n)
unfolding setreturns_as
setreturns_as-Keeps vcall e n = search (steps) depth 12
setreturns_as-Keeps vvararg e n = search (steps) depth 12
setreturns_as-Keeps _ e n = search (steps) depth 12

pub setreturns-Keeps : (e : ExpDesc) (n : ℤ) → Keeps (setreturns e n)
unfolding setreturns
setreturns-Keeps e n = search (steps, setreturns_as-Keeps) depth 12

pub setoneret_as-Keeps : (k : ExpKind) (e : ExpDesc) → Keeps (setoneret_as k e)
unfolding setoneret_as
setoneret_as-Keeps vcall e = search (steps) depth 12
setoneret_as-Keeps vvararg e = search (steps) depth 12
setoneret_as-Keeps _ e = search (steps) depth 12

pub setoneret-Keeps : (e : ExpDesc) → Keeps (setoneret e)
unfolding setoneret
setoneret-Keeps e = search (steps, setoneret_as-Keeps) depth 12

pub dischargevars_as-Keeps : (k : ExpKind) (e : ExpDesc) → Keeps (dischargevars_as k e)
unfolding dischargevars_as
dischargevars_as-Keeps vlocal e =
    search (steps, setoneret-Keeps, code_abc-Keeps, code_abx-Keeps) depth 12
dischargevars_as-Keeps vupval e =
    search (steps, setoneret-Keeps, code_abc-Keeps, code_abx-Keeps) depth 12
dischargevars_as-Keeps vglobal e =
    search (steps, setoneret-Keeps, code_abc-Keeps, code_abx-Keeps) depth 12
dischargevars_as-Keeps vindexed e =
    search (steps, setoneret-Keeps, code_abc-Keeps, code_abx-Keeps) depth 12
dischargevars_as-Keeps vvararg e =
    search (steps, setoneret-Keeps, code_abc-Keeps, code_abx-Keeps) depth 12
dischargevars_as-Keeps vcall e =
    search (steps, setoneret-Keeps, code_abc-Keeps, code_abx-Keeps) depth 12
dischargevars_as-Keeps _ e =
    search (steps, setoneret-Keeps, code_abc-Keeps, code_abx-Keeps) depth 12

pub dischargevars-Keeps : (e : ExpDesc) → Keeps (dischargevars e)
unfolding dischargevars
dischargevars-Keeps e = search (steps, dischargevars_as-Keeps) depth 12

pub code_label-Keeps : (a : ℕ) (b : ℕ) (jump : ℕ) → Keeps (code_label a b jump)
unfolding code_label
code_label-Keeps a b jump = search (steps, code_abc-Keeps) depth 12

module _ (num : Numbers) where
  pub string_k-Keeps : (s : List ℕ) → Keeps (string_k num s)
  unfolding string_k
  string_k-Keeps s = search (steps, addk-Keeps num) depth 12

  pub number_k-Keeps : (r : ℕ) → Keeps (number_k num r)
  unfolding number_k
  number_k-Keeps r = search (steps, addk-Keeps num) depth 12

  pub bool_k-Keeps : (b : Bool) → Keeps (bool_k num b)
  unfolding bool_k
  bool_k-Keeps b = search (steps, addk-Keeps num) depth 12

  pub nil_k-Keeps : Keeps (nil_k num)
  unfolding nil_k
  nil_k-Keeps = search (steps, addk-Keeps num) depth 12

  pub load_as-Keeps : (k : ExpKind) (e : ExpDesc) (reg : ℕ) → Keeps (load_as num k e reg)
  unfolding load_as
  load_as-Keeps vnil e reg =
      search (steps, luak_nil-Keeps, code_abc-Keeps, code_abx-Keeps, number_k-Keeps) depth 12
  load_as-Keeps vfalse e reg =
      search (steps, luak_nil-Keeps, code_abc-Keeps, code_abx-Keeps, number_k-Keeps) depth 12
  load_as-Keeps vtrue e reg =
      search (steps, luak_nil-Keeps, code_abc-Keeps, code_abx-Keeps, number_k-Keeps) depth 12
  load_as-Keeps vk e reg =
      search (steps, luak_nil-Keeps, code_abc-Keeps, code_abx-Keeps, number_k-Keeps) depth 12
  load_as-Keeps vknum e reg =
      search (steps, luak_nil-Keeps, code_abc-Keeps, code_abx-Keeps, number_k-Keeps) depth 12
  load_as-Keeps vrelocable e reg =
      search (steps, luak_nil-Keeps, code_abc-Keeps, code_abx-Keeps, number_k-Keeps) depth 12
  load_as-Keeps vnonreloc e reg =
      search (steps, luak_nil-Keeps, code_abc-Keeps, code_abx-Keeps, number_k-Keeps) depth 12
  load_as-Keeps vvoid e reg =
      search (steps, luak_nil-Keeps, code_abc-Keeps, code_abx-Keeps, number_k-Keeps) depth 12
  load_as-Keeps vjmp e reg =
      search (steps, luak_nil-Keeps, code_abc-Keeps, code_abx-Keeps, number_k-Keeps) depth 12
  load_as-Keeps _ e reg =
      search (steps, luak_nil-Keeps, code_abc-Keeps, code_abx-Keeps, number_k-Keeps) depth 12

  pub discharge2reg-Keeps : (e : ExpDesc) (reg : ℕ) → Keeps (discharge2reg num e reg)
  unfolding discharge2reg
  discharge2reg-Keeps e reg = search (steps, dischargevars-Keeps, load_as-Keeps) depth 12

  pub discharge2anyreg-Keeps : (e : ExpDesc) → Keeps (discharge2anyreg num e)
  unfolding discharge2anyreg
  discharge2anyreg-Keeps e = search (steps, discharge2reg-Keeps) depth 12

  pub load_values-Keeps : (jumps : Bool) (reg : ℕ) → Keeps (load_values num jumps reg)
  unfolding load_values
  load_values-Keeps jumps reg =
      search (steps, luak_jump-Keeps, code_label-Keeps, patchtohere-Keeps) depth 12

  pub close_jumps-Keeps : (e : ExpDesc) (reg : ℕ) → Keeps (close_jumps num e reg)
  unfolding close_jumps
  close_jumps-Keeps e reg = search (steps, load_values-Keeps) depth 12

  pub exp2reg-Keeps : (e : ExpDesc) (reg : ℕ) → Keeps (exp2reg num e reg)
  unfolding exp2reg
  exp2reg-Keeps e reg = search (steps, discharge2reg-Keeps, close_jumps-Keeps) depth 12

  pub exp2nextreg-Keeps : (e : ExpDesc) → Keeps (exp2nextreg num e)
  unfolding exp2nextreg
  exp2nextreg-Keeps e = search (steps, dischargevars-Keeps, freeexp-Keeps, exp2reg-Keeps) depth 12

  pub exp2anyreg-Keeps : (e : ExpDesc) → Keeps (exp2anyreg num e)
  unfolding exp2anyreg
  exp2anyreg-Keeps e =
      search (steps, dischargevars-Keeps, exp2reg-Keeps, exp2nextreg-Keeps) depth 12

  pub exp2val-Keeps : (e : ExpDesc) → Keeps (exp2val num e)
  unfolding exp2val
  exp2val-Keeps e = search (steps, exp2anyreg-Keeps, dischargevars-Keeps) depth 12

  pub in_any_register-Keeps : (e : ExpDesc) → Keeps (in_any_register num e)
  unfolding in_any_register
  in_any_register-Keeps e = search (steps, exp2anyreg-Keeps) depth 12

  pub as_constant-Keeps : (e : ExpDesc) (make : Gen ℕ) → Keeps make → Keeps (as_constant num e make)
  unfolding as_constant
  as_constant-Keeps e make h = search (steps, in_any_register-Keeps) depth 12

  pub exp2rk_as-Keeps : (k : ExpKind) (e : ExpDesc) → Keeps (exp2rk_as num k e)
  unfolding exp2rk_as
  exp2rk_as-Keeps vknum e =
      search
        (steps, as_constant-Keeps, number_k-Keeps, bool_k-Keeps, nil_k-Keeps, in_any_register-Keeps)
        depth 12
  exp2rk_as-Keeps vtrue e =
      search
        (steps, as_constant-Keeps, number_k-Keeps, bool_k-Keeps, nil_k-Keeps, in_any_register-Keeps)
        depth 12
  exp2rk_as-Keeps vfalse e =
      search
        (steps, as_constant-Keeps, number_k-Keeps, bool_k-Keeps, nil_k-Keeps, in_any_register-Keeps)
        depth 12
  exp2rk_as-Keeps vnil e =
      search
        (steps, as_constant-Keeps, number_k-Keeps, bool_k-Keeps, nil_k-Keeps, in_any_register-Keeps)
        depth 12
  exp2rk_as-Keeps vk e =
      search
        (steps, as_constant-Keeps, number_k-Keeps, bool_k-Keeps, nil_k-Keeps, in_any_register-Keeps)
        depth 12
  exp2rk_as-Keeps _ e =
      search
        (steps, as_constant-Keeps, number_k-Keeps, bool_k-Keeps, nil_k-Keeps, in_any_register-Keeps)
        depth 12

  pub exp2rk-Keeps : (e : ExpDesc) → Keeps (exp2rk num e)
  unfolding exp2rk
  exp2rk-Keeps e = search (steps, exp2val-Keeps, exp2rk_as-Keeps) depth 12

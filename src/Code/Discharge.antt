-- ===== src/Code/Discharge.antt =====
-- lua-5.1.5/src/lcode.c: an expression is brought into a register or a constant. An operation on an
-- `expdesc` gives the new one.
use lua_5_1_source_guide.Base.{
  ℕ, ◌-◌, Bool, true, false, not, ◌&&◌, leb, ◌==◌, if◌then◌else◌, length,
}
use lua_5_1_source_guide.Base.Int.{ℤ, pos, negsuc, ◌+ℤ◌}
use lua_5_1_source_guide.Opcodes.{
  cast_u32, get_arg_a, set_arg_a, set_arg_b, set_arg_c, max_index_rk, rk_as_k,
}
use lua_5_1_source_guide.Opcodes.Table.{OpCode}
use lua_5_1_source_guide.Jumps.{no_jump, at}
use lua_5_1_source_guide.Code.State.{
  ExpKind, vvoid, vnil, vtrue, vfalse, vk, vknum, vlocal, vupval, vglobal, vindexed, vjmp,
  vrelocable, vnonreloc, vcall, vvararg, ExpDesc, Gen, ◌>>=◌, ◌>>◌, return, fail, get,
  when◌then◌else◌, assertion,
}
use lua_5_1_source_guide.Code.Emit.{
  patch_list_aux, needs_value, luak_concat, edit, getlabel, code_abc, code_abx, luak_nil, luak_jump,
  is_nonreloc, patchtohere, reserveregs, free_register, freeexp,
}
use lua_5_1_source_guide.Code.Constants.{Numbers, number_k, bool_k, nil_k}

abbrev pub int_eq : ℤ → ℤ → Bool
int_eq (pos a) (pos b) = a == b
int_eq (negsuc a) (negsuc b) = a == b
int_eq _ _ = false

abbrev pub hasjumps : ExpDesc → Bool
hasjumps e = not (int_eq e.t e.f)

abbrev pub relocable : ExpDesc → ℕ → ExpDesc
relocable e pc = record e { k = ExpKind.vrelocable; info = pc }

abbrev pub in_register : ExpDesc → ℕ → ExpDesc
in_register e reg = record e { k = ExpKind.vnonreloc; info = reg }

-- The number of results may be `LUA_MULTRET`, -1.
unfoldable pub setreturns_as : ExpKind → ExpDesc → ℤ → Gen (Unit {0})
setreturns_as vcall e nresults = edit e.info (λ i. set_arg_c i (cast_u32 (nresults +ℤ pos 1)))
setreturns_as vvararg e nresults = do
  edit e.info (λ i. set_arg_b i (cast_u32 (nresults +ℤ pos 1)))
  free ← get (λ fs. fs.freereg)
  edit e.info (λ i. set_arg_a i free)
  reserveregs 1
setreturns_as _ e nresults = return tt

unfoldable pub setreturns : ExpDesc → ℤ → Gen (Unit {0})
setreturns e nresults = setreturns_as e.k e nresults

unfoldable pub setoneret_as : ExpKind → ExpDesc → Gen ExpDesc
setoneret_as vcall e = get (λ fs. in_register e (get_arg_a (at fs.code e.info)))
setoneret_as vvararg e = edit e.info (λ i. set_arg_b i 2) >> return (relocable e e.info)
setoneret_as _ e = return e

unfoldable pub setoneret : ExpDesc → Gen ExpDesc
setoneret e = setoneret_as e.k e

unfoldable pub dischargevars_as : ExpKind → ExpDesc → Gen ExpDesc
dischargevars_as vlocal e = return (in_register e e.info)
dischargevars_as vupval e = do pc ← code_abc OpCode.op_getupval 0 e.info 0; return (relocable e pc)
dischargevars_as vglobal e = do pc ← code_abx OpCode.op_getglobal 0 e.info; return (relocable e pc)
dischargevars_as vindexed e = do
  free_register e.aux
  free_register e.info
  pc ← code_abc OpCode.op_gettable 0 e.info e.aux
  return (relocable e pc)
dischargevars_as vvararg e = setoneret e
dischargevars_as vcall e = setoneret e
dischargevars_as _ e = return e

unfoldable pub dischargevars : ExpDesc → Gen ExpDesc
dischargevars e = dischargevars_as e.k e

unfoldable pub code_label : ℕ → ℕ → ℕ → Gen ℕ
code_label a b jump = getlabel >> code_abc OpCode.op_loadbool a b jump

abbrev pub is_jump : ExpKind → Bool
is_jump vjmp = true
is_jump _ = false

module _ (num : Numbers) where
  -- The `switch` of `discharge2reg`
  unfoldable pub load_as : ExpKind → ExpDesc → ℕ → Gen ExpDesc
  load_as vnil e reg = luak_nil reg 1 >> return (in_register e reg)
  load_as vfalse e reg = code_abc OpCode.op_loadbool reg 0 0 >> return (in_register e reg)
  load_as vtrue e reg = code_abc OpCode.op_loadbool reg 1 0 >> return (in_register e reg)
  load_as vk e reg = code_abx OpCode.op_loadk reg e.info >> return (in_register e reg)
  load_as vknum e reg = do
    k ← number_k num e.nval
    code_abx OpCode.op_loadk reg k
    return (in_register e reg)
  load_as vrelocable e reg = edit e.info (λ i. set_arg_a i reg) >> return (in_register e reg)
  load_as vnonreloc e reg = do
    when reg == e.info then return tt else (code_abc OpCode.op_move reg e.info 0 >> return tt)
    return (in_register e reg)
  load_as vvoid e reg = return e
  load_as vjmp e reg = return e
  load_as _ e reg = fail assertion

  unfoldable pub discharge2reg : ExpDesc → ℕ → Gen ExpDesc
  discharge2reg e reg = do e₁ ← dischargevars e; load_as e₁.k e₁ reg

  unfoldable pub discharge2anyreg : ExpDesc → Gen ExpDesc
  discharge2anyreg e =
      when is_nonreloc e.k
      then return e
      else (do reserveregs 1; free ← get (λ fs. fs.freereg); discharge2reg e (free - 1))

  -- The places of the instructions that load false and true, if a jump needs them
  unfoldable pub load_values : Bool → ℕ → Gen (ℤ × ℤ)
  load_values jumps reg = do
    fj ← when jumps then return no_jump else luak_jump
    p_f ← code_label reg 0 1
    p_t ← code_label reg 1 0
    patchtohere fj
    return (pos p_f, pos p_t)

  unfoldable pub close_jumps : ExpDesc → ℕ → Gen (Unit {0})
  close_jumps e reg = do
    on_true ← needs_value e.t
    on_false ← when on_true then return true else needs_value e.f
    loads ← when on_false then load_values (is_jump e.k) reg else return (no_jump, no_jump)
    final ← getlabel
    patch_list_aux e.f (pos final) reg loads.0
    patch_list_aux e.t (pos final) reg loads.1

  unfoldable pub exp2reg : ExpDesc → ℕ → Gen ExpDesc
  exp2reg e reg = do
    e₁ ← discharge2reg e reg
    t ← when is_jump e₁.k then luak_concat e₁.t (pos e₁.info) else return e₁.t
    when hasjumps (record e₁ { t = t }) then close_jumps (record e₁ { t = t }) reg else return tt
    return (record e₁ { k = ExpKind.vnonreloc; info = reg; t = no_jump; f = no_jump })

  unfoldable pub exp2nextreg : ExpDesc → Gen ExpDesc
  exp2nextreg e = do
    e₁ ← dischargevars e
    freeexp e₁
    reserveregs 1
    free ← get (λ fs. fs.freereg)
    exp2reg e₁ (free - 1)

  -- The register is the `info` of the result.
  unfoldable pub exp2anyreg : ExpDesc → Gen ExpDesc
  exp2anyreg e = do
    e₁ ← dischargevars e
    active ← get (λ fs. fs.nactvar)
    when is_nonreloc e₁.k && not (hasjumps e₁)
        then return e₁
        else (when is_nonreloc e₁.k && leb active e₁.info
            then exp2reg e₁ e₁.info
            else exp2nextreg e₁)

  unfoldable pub exp2val : ExpDesc → Gen ExpDesc
  exp2val e = when hasjumps e then exp2anyreg e else dischargevars e

  -- The operand, and the expression
  unfoldable pub in_any_register : ExpDesc → Gen (ℕ × ExpDesc)
  in_any_register e = do e₁ ← exp2anyreg e; return (e₁.info, e₁)

  unfoldable pub as_constant : ExpDesc → Gen ℕ → Gen (ℕ × ExpDesc)
  as_constant e make = do
    fits ← get (λ fs. leb (length fs.k) max_index_rk)
    when fits
        then (do i ← make; return (rk_as_k i, record e { k = ExpKind.vk; info = i }))
        else in_any_register e

  unfoldable pub exp2rk_as : ExpKind → ExpDesc → Gen (ℕ × ExpDesc)
  exp2rk_as vknum e = as_constant e (number_k num e.nval)
  exp2rk_as vtrue e = as_constant e (bool_k num true)
  exp2rk_as vfalse e = as_constant e (bool_k num false)
  exp2rk_as vnil e = as_constant e (nil_k num)
  exp2rk_as vk e =
      when leb e.info max_index_rk then return (rk_as_k e.info, e) else in_any_register e
  exp2rk_as _ e = in_any_register e

  unfoldable pub exp2rk : ExpDesc → Gen (ℕ × ExpDesc)
  exp2rk e = do e₁ ← exp2val e; exp2rk_as e₁.k e₁

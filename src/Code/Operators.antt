-- ===== src/Code/Operators.antt =====
-- lua-5.1.5/src/lcode.c and lcode.h: the operators of expressions.
use lua_5_1_source_guide.Base.{
  ℕ, ◌+◌, Option, none, some, Bool, true, false, not, ◌&&◌, ◌||◌, ltb, ◌==◌, if◌then◌else◌,
}
use lua_5_1_source_guide.Base.Int.{ℤ, pos_part}
use lua_5_1_source_guide.Opcodes.{get_opcode, get_arg_b, set_arg_b}
use lua_5_1_source_guide.Opcodes.Table.{OpCode, op_value}
use lua_5_1_source_guide.Jumps.{no_jump, is_no_jump, at}
use lua_5_1_source_guide.Code.State.{
  ExpKind, vknum, vjmp, ExpDesc, Gen, ◌>>=◌, ◌>>◌, return, fail, get, assert, when◌then◌else◌,
  assertion,
}
use lua_5_1_source_guide.Code.Emit.{luak_concat, edit, code_abc, condjump, freeexp}
use lua_5_1_source_guide.Code.Constants.{Numbers}
use lua_5_1_source_guide.Code.Discharge.{
  relocable, dischargevars, exp2nextreg, exp2anyreg, exp2val, exp2rk,
}
use lua_5_1_source_guide.Code.Branches.{is_relocable, goiftrue, goiffalse, codenot}

pub data BinOpr : Type 0 where
  opr_add opr_sub opr_mul opr_div opr_mod opr_pow opr_concat opr_ne opr_eq : BinOpr
  opr_lt opr_le opr_gt opr_ge opr_and opr_or opr_nobinopr : BinOpr

pub data UnOpr : Type 0 where
  opr_minus opr_not opr_len opr_nounopr : UnOpr

abbrev pub is_vknum : ExpKind → Bool
is_vknum vknum = true
is_vknum _ = false

unfoldable pub isnumeral : ExpDesc → Bool
isnumeral e = is_vknum e.k && is_no_jump e.t && is_no_jump e.f

-- A condition, as the jump that is taken where it does not hold
abbrev pub as_jump : ℤ → ExpDesc → ExpDesc
as_jump j e = record e { k = vjmp; info = pos_part j }

abbrev pub same_op : OpCode → OpCode → Bool
same_op a b = op_value a == op_value b

module _ (num : Numbers) where
  -- The `switch` of `constfolding`; the pattern of the number zero is 0. A result of none is that the
  -- operation is left to the machine.
  unfoldable pub fold : OpCode → ℕ → ℕ → Gen (Option ℕ)
  fold OpCode.op_add v1 v2 = return (some (num.num_add v1 v2))
  fold OpCode.op_sub v1 v2 = return (some (num.num_sub v1 v2))
  fold OpCode.op_mul v1 v2 = return (some (num.num_mul v1 v2))
  fold OpCode.op_div v1 v2 = return (if num.num_eq v2 0 then none else some (num.num_div v1 v2))
  fold OpCode.op_mod v1 v2 = return (if num.num_eq v2 0 then none else some (num.num_mod v1 v2))
  fold OpCode.op_pow v1 v2 = return (some (num.num_pow v1 v2))
  fold OpCode.op_unm v1 v2 = return (some (num.num_unm v1))
  fold OpCode.op_len v1 v2 = return none
  fold _ v1 v2 = fail assertion

  abbrev pub unless_nan : Option ℕ → Option ℕ
  unless_nan none = none
  unless_nan (some r) = if num.is_nan r then none else some r

  unfoldable pub constfolding : OpCode → ExpDesc → ExpDesc → Gen (Option ℕ)
  constfolding op e1 e2 =
      when not (isnumeral e1) || not (isnumeral e2)
      then return none
      else (do r ← fold op e1.nval e2.nval; return (unless_nan r))

  -- The second operand, where the operation has one
  unfoldable pub second_operand : OpCode → ExpDesc → Gen (ℕ × ExpDesc)
  second_operand op e2 =
      when not (same_op op OpCode.op_unm) && not (same_op op OpCode.op_len)
      then exp2rk num e2
      else return (0, e2)

  unfoldable pub emit_arith : OpCode → ExpDesc → ExpDesc → Gen ExpDesc
  emit_arith op e1 e2 = do
    o2 ← second_operand op e2
    o1 ← exp2rk num e1
    when ltb o2.0 o1.0 then (freeexp o1.1 >> freeexp o2.1) else (freeexp o2.1 >> freeexp o1.1)
    pc ← code_abc op 0 o1.0 o2.0
    return (relocable o1.1 pc)

  abbrev pub or_emit : Option ℕ → ExpDesc → Gen ExpDesc → Gen ExpDesc
  or_emit (some r) e1 other = return (record e1 { nval = r })
  or_emit none e1 other = other

  unfoldable pub codearith : OpCode → ExpDesc → ExpDesc → Gen ExpDesc
  codearith op e1 e2 = do r ← constfolding op e1 e2; or_emit r e1 (emit_arith op e1 e2)

  unfoldable pub codecomp : OpCode → ℕ → ExpDesc → ExpDesc → Gen ExpDesc
  codecomp op cond e1 e2 = do
    o1 ← exp2rk num e1
    o2 ← exp2rk num e2
    freeexp o2.1
    freeexp o1.1
    j ←
        when cond == 0 && not (same_op op OpCode.op_eq)
        then condjump op 1 o2.0 o1.0
        else condjump op cond o1.0 o2.0
    return (as_jump j o1.1)

  -- The constant zero beside a prefix operator
  abbrev pub zero_numeral : ExpDesc
  zero_numeral = record { k = vknum; info = 0; aux = 0; nval = 0; t = no_jump; f = no_jump }

  unfoldable pub code_prefix : UnOpr → ExpDesc → Gen ExpDesc
  code_prefix opr_minus e = do
    e₁ ← when isnumeral e then return e else exp2anyreg num e
    codearith OpCode.op_unm e₁ zero_numeral
  code_prefix opr_not e = codenot num e
  code_prefix opr_len e = do e₁ ← exp2anyreg num e; codearith OpCode.op_len e₁ zero_numeral
  code_prefix opr_nounopr e = fail assertion

  unfoldable pub into_operand : ExpDesc → Gen ExpDesc
  into_operand v = do rk ← exp2rk num v; return rk.1

  unfoldable pub keep_numeral : ExpDesc → Gen ExpDesc
  keep_numeral v = when isnumeral v then return v else into_operand v

  unfoldable pub code_infix : BinOpr → ExpDesc → Gen ExpDesc
  code_infix opr_and v = goiftrue num v
  code_infix opr_or v = goiffalse num v
  code_infix opr_concat v = exp2nextreg num v
  code_infix opr_add v = keep_numeral v
  code_infix opr_sub v = keep_numeral v
  code_infix opr_mul v = keep_numeral v
  code_infix opr_div v = keep_numeral v
  code_infix opr_mod v = keep_numeral v
  code_infix opr_pow v = keep_numeral v
  code_infix _ v = into_operand v

  unfoldable pub posfix_and : ExpDesc → ExpDesc → Gen ExpDesc
  posfix_and e1 e2 = do
    assert (is_no_jump e1.t)
    e ← dischargevars e2
    f ← luak_concat e.f e1.f
    return (record e { f = f })

  unfoldable pub posfix_or : ExpDesc → ExpDesc → Gen ExpDesc
  posfix_or e1 e2 = do
    assert (is_no_jump e1.f)
    e ← dischargevars e2
    t ← luak_concat e.t e1.t
    return (record e { t = t })

  -- `a .. (b .. c)` extends the concatenation of `b` and `c`.
  unfoldable pub extend_concat : ExpDesc → ExpDesc → Gen ExpDesc
  extend_concat e1 e = do
    b ← get (λ fs. get_arg_b (at fs.code e.info))
    assert (e1.info + 1 == b)
    freeexp e1
    edit e.info (λ i. set_arg_b i e1.info)
    return (relocable e1 e.info)

  unfoldable pub posfix_concat : ExpDesc → ExpDesc → Gen ExpDesc
  posfix_concat e1 e2 = do
    e ← exp2val num e2
    op ← get (λ fs. get_opcode (at fs.code e.info))
    when is_relocable e.k && op == op_value OpCode.op_concat
        then extend_concat e1 e
        else (do e₁ ← exp2nextreg num e; codearith OpCode.op_concat e1 e₁)

  unfoldable pub code_posfix : BinOpr → ExpDesc → ExpDesc → Gen ExpDesc
  code_posfix opr_and e1 e2 = posfix_and e1 e2
  code_posfix opr_or e1 e2 = posfix_or e1 e2
  code_posfix opr_concat e1 e2 = posfix_concat e1 e2
  code_posfix opr_add e1 e2 = codearith OpCode.op_add e1 e2
  code_posfix opr_sub e1 e2 = codearith OpCode.op_sub e1 e2
  code_posfix opr_mul e1 e2 = codearith OpCode.op_mul e1 e2
  code_posfix opr_div e1 e2 = codearith OpCode.op_div e1 e2
  code_posfix opr_mod e1 e2 = codearith OpCode.op_mod e1 e2
  code_posfix opr_pow e1 e2 = codearith OpCode.op_pow e1 e2
  code_posfix opr_eq e1 e2 = codecomp OpCode.op_eq 1 e1 e2
  code_posfix opr_ne e1 e2 = codecomp OpCode.op_eq 0 e1 e2
  code_posfix opr_lt e1 e2 = codecomp OpCode.op_lt 1 e1 e2
  code_posfix opr_le e1 e2 = codecomp OpCode.op_le 1 e1 e2
  code_posfix opr_gt e1 e2 = codecomp OpCode.op_lt 0 e1 e2
  code_posfix opr_ge e1 e2 = codecomp OpCode.op_le 0 e1 e2
  code_posfix opr_nobinopr e1 e2 = fail assertion

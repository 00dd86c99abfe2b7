-- ===== src/Code/Preserved/Operators.antt =====
-- The operations of Code/Operators (lua-5.1.5/src/lcode.c) keep the state valid.
use lua_5_1_source_guide.Base.{ℕ, Option, none, some}
use lua_5_1_source_guide.Opcodes.Table.{OpCode}
use lua_5_1_source_guide.Code.State.{ExpDesc, Gen}
use lua_5_1_source_guide.Code.Constants.{Numbers}
use lua_5_1_source_guide.Code.Operators.{
  UnOpr, opr_minus, opr_not, opr_len, opr_nounopr, BinOpr, second_operand, emit_arith, fold,
  constfolding, or_emit, codearith, codecomp, code_prefix, into_operand, keep_numeral, code_infix,
  posfix_and, posfix_or, extend_concat, posfix_concat, code_posfix,
}
use lua_5_1_source_guide.Code.Valid.{Keeps, Keeps-bind}
use lua_5_1_source_guide.Code.Primitives.{steps}
use lua_5_1_source_guide.Code.Preserved.Emit.{code_abc-Keeps, condjump-Keeps, freeexp-Keeps}
use lua_5_1_source_guide.Code.Preserved.Discharge.{
  dischargevars-Keeps, exp2nextreg-Keeps, exp2anyreg-Keeps, exp2val-Keeps, exp2rk-Keeps,
}
use lua_5_1_source_guide.Code.Preserved.Branches.{goiftrue-Keeps, goiffalse-Keeps, codenot-Keeps}

module _ (num : Numbers) where
  pub second_operand-Keeps : (op : OpCode) (e2 : ExpDesc) → Keeps (second_operand num op e2)
  unfolding second_operand
  second_operand-Keeps op e2 = search (steps, exp2rk-Keeps) depth 12

  pub emit_arith-Keeps :
      (op : OpCode) (e1 : ExpDesc) (e2 : ExpDesc) → Keeps (emit_arith num op e1 e2)
  unfolding emit_arith
  emit_arith-Keeps op e1 e2 =
      search (steps, second_operand-Keeps, exp2rk-Keeps, freeexp-Keeps, code_abc-Keeps) depth 12

  or_emit-Keeps :
      (r : Option ℕ) (e1 : ExpDesc) (other : Gen ExpDesc)
      → Keeps other
      → Keeps (or_emit num r e1 other)
  or_emit-Keeps (some r) e1 other h = search (steps)
  or_emit-Keeps none e1 other h = h

  fold-Keeps : (op : OpCode) (v1 v2 : ℕ) → Keeps (fold num op v1 v2)
  unfolding fold
  fold-Keeps OpCode.op_add v1 v2 = search (steps)
  fold-Keeps OpCode.op_sub v1 v2 = search (steps)
  fold-Keeps OpCode.op_mul v1 v2 = search (steps)
  fold-Keeps OpCode.op_div v1 v2 = search (steps)
  fold-Keeps OpCode.op_mod v1 v2 = search (steps)
  fold-Keeps OpCode.op_pow v1 v2 = search (steps)
  fold-Keeps OpCode.op_unm v1 v2 = search (steps)
  fold-Keeps OpCode.op_len v1 v2 = search (steps)
  fold-Keeps _ v1 v2 = search (steps)

  constfolding-Keeps : (op : OpCode) (e1 e2 : ExpDesc) → Keeps (constfolding num op e1 e2)
  unfolding constfolding
  constfolding-Keeps op e1 e2 = search (steps, fold-Keeps)

  pub codearith-Keeps : (op : OpCode) (e1 e2 : ExpDesc) → Keeps (codearith num op e1 e2)
  unfolding codearith
  codearith-Keeps op e1 e2 =
      Keeps-bind (constfolding-Keeps op e1 e2)
        (λ r. or_emit-Keeps r e1 _ (emit_arith-Keeps op e1 e2))

  pub codecomp-Keeps :
      (op : OpCode) (cond : ℕ) (e1 : ExpDesc) (e2 : ExpDesc) → Keeps (codecomp num op cond e1 e2)
  unfolding codecomp
  codecomp-Keeps op cond e1 e2 =
      search (steps, exp2rk-Keeps, freeexp-Keeps, condjump-Keeps) depth 12

  pub code_prefix-Keeps : (op : UnOpr) (e : ExpDesc) → Keeps (code_prefix num op e)
  unfolding code_prefix
  code_prefix-Keeps opr_minus e =
      search (steps, exp2anyreg-Keeps, codearith-Keeps, codenot-Keeps) depth 12
  code_prefix-Keeps opr_not e =
      search (steps, exp2anyreg-Keeps, codearith-Keeps, codenot-Keeps) depth 12
  code_prefix-Keeps opr_len e =
      search (steps, exp2anyreg-Keeps, codearith-Keeps, codenot-Keeps) depth 12
  code_prefix-Keeps opr_nounopr e =
      search (steps, exp2anyreg-Keeps, codearith-Keeps, codenot-Keeps) depth 12

  pub into_operand-Keeps : (v : ExpDesc) → Keeps (into_operand num v)
  unfolding into_operand
  into_operand-Keeps v = search (steps, exp2rk-Keeps) depth 12

  pub keep_numeral-Keeps : (v : ExpDesc) → Keeps (keep_numeral num v)
  unfolding keep_numeral
  keep_numeral-Keeps v = search (steps, into_operand-Keeps) depth 12

  pub code_infix-Keeps : (op : BinOpr) (v : ExpDesc) → Keeps (code_infix num op v)
  unfolding code_infix
  code_infix-Keeps BinOpr.opr_and v =
      search
        (
          steps, goiftrue-Keeps, goiffalse-Keeps, exp2nextreg-Keeps, keep_numeral-Keeps,
          into_operand-Keeps,
        )
        depth 12
  code_infix-Keeps BinOpr.opr_or v =
      search
        (
          steps, goiftrue-Keeps, goiffalse-Keeps, exp2nextreg-Keeps, keep_numeral-Keeps,
          into_operand-Keeps,
        )
        depth 12
  code_infix-Keeps BinOpr.opr_concat v =
      search
        (
          steps, goiftrue-Keeps, goiffalse-Keeps, exp2nextreg-Keeps, keep_numeral-Keeps,
          into_operand-Keeps,
        )
        depth 12
  code_infix-Keeps BinOpr.opr_add v =
      search
        (
          steps, goiftrue-Keeps, goiffalse-Keeps, exp2nextreg-Keeps, keep_numeral-Keeps,
          into_operand-Keeps,
        )
        depth 12
  code_infix-Keeps _ v =
      search
        (
          steps, goiftrue-Keeps, goiffalse-Keeps, exp2nextreg-Keeps, keep_numeral-Keeps,
          into_operand-Keeps,
        )
        depth 12

  pub posfix_and-Keeps : (e1 : ExpDesc) (e2 : ExpDesc) → Keeps (posfix_and num e1 e2)
  unfolding posfix_and
  posfix_and-Keeps e1 e2 = search (steps, dischargevars-Keeps) depth 12

  pub posfix_or-Keeps : (e1 : ExpDesc) (e2 : ExpDesc) → Keeps (posfix_or num e1 e2)
  unfolding posfix_or
  posfix_or-Keeps e1 e2 = search (steps, dischargevars-Keeps) depth 12

  pub extend_concat-Keeps : (e1 : ExpDesc) (e : ExpDesc) → Keeps (extend_concat num e1 e)
  unfolding extend_concat
  extend_concat-Keeps e1 e = search (steps, freeexp-Keeps) depth 12

  pub posfix_concat-Keeps : (e1 : ExpDesc) (e2 : ExpDesc) → Keeps (posfix_concat num e1 e2)
  unfolding posfix_concat
  posfix_concat-Keeps e1 e2 =
      search (steps, exp2val-Keeps, extend_concat-Keeps, exp2nextreg-Keeps, codearith-Keeps) depth
        12

  pub code_posfix-Keeps :
      (op : BinOpr) (e1 : ExpDesc) (e2 : ExpDesc) → Keeps (code_posfix num op e1 e2)
  unfolding code_posfix
  code_posfix-Keeps BinOpr.opr_and e1 e2 =
      search
        (
          steps, posfix_and-Keeps, posfix_or-Keeps, posfix_concat-Keeps, codearith-Keeps,
          codecomp-Keeps,
        )
        depth 12
  code_posfix-Keeps BinOpr.opr_or e1 e2 =
      search
        (
          steps, posfix_and-Keeps, posfix_or-Keeps, posfix_concat-Keeps, codearith-Keeps,
          codecomp-Keeps,
        )
        depth 12
  code_posfix-Keeps BinOpr.opr_concat e1 e2 =
      search
        (
          steps, posfix_and-Keeps, posfix_or-Keeps, posfix_concat-Keeps, codearith-Keeps,
          codecomp-Keeps,
        )
        depth 12
  code_posfix-Keeps _ e1 e2 =
      search
        (
          steps, posfix_and-Keeps, posfix_or-Keeps, posfix_concat-Keeps, codearith-Keeps,
          codecomp-Keeps,
        )
        depth 12

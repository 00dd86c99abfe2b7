-- ===== src/Code/Invariant.antt =====
-- Every state that the parser reaches with lua-5.1.5/src/lcode.c satisfies the invariant of Code/Valid.
use lua_5_1_source_guide.Base.{ℕ, ◌+◌, ◌^◌, ◌%◌, ◌≤◌, ◌<◌, ◌≡◌, subst, arith}
use lua_5_1_source_guide.Base.Int.{ℤ}
use lua_5_1_source_guide.Opcodes.{IsInstruction}
use lua_5_1_source_guide.Code.State.{Outcome, ok, FuncState, Gen, ◌>>=◌, ◌>>◌, modify, get}
use lua_5_1_source_guide.Code.Emit.{set_list_code, luak_setlist}
use lua_5_1_source_guide.Code.Constants.{Numbers}
use lua_5_1_source_guide.Code.Valid.{IsValid, Kept, bind-Kept, Keeps, Keeps-assert}
use lua_5_1_source_guide.Code.Primitives.{steps, checkstack-Keeps, fixline-Keeps, lowered, sized}
use lua_5_1_source_guide.Code.Preserved.Emit.{
  code_abc-Keeps, code_abx-Keeps, luak_code-Keeps, luak_nil-Keeps, luak_jump-Keeps, luak_ret-Keeps,
  patchtohere-Keeps, patchlist-Keeps,
}
use lua_5_1_source_guide.Code.Preserved.Discharge.{
  setreturns-Keeps, setoneret-Keeps, dischargevars-Keeps, string_k-Keeps, number_k-Keeps,
  exp2nextreg-Keeps, exp2anyreg-Keeps, exp2val-Keeps, exp2rk-Keeps,
}
use lua_5_1_source_guide.Code.Preserved.Branches.{
  storevar-Keeps, luak_self-Keeps, goiftrue-Keeps, indexed-Keeps,
}
use lua_5_1_source_guide.Code.Preserved.Operators.{
  code_prefix-Keeps, code_infix-Keeps, code_posfix-Keeps,
}
use lua_5_1_source_guide.Code.Reachable.{
  Call, forget, nil, jump, ret, patch, patch_to_here, join, label, check_stack, reserve, string,
  number, code_of_abc, code_of_abx, set_returns, set_one_ret, discharge, to_next_register,
  to_any_register, to_value, to_operand, store, self, go_if_true, index, prefix_of, infix_of,
  posfix_of, fix_line, set_argument_b, set_argument_c, run, Step, calls, set_list, at_line,
  variables, frees, Reach, here, next,
}

forget-Keeps : {A : Type 0} {m : Gen A} → Keeps m → Keeps (forget m)
unfolding forget ◌>>◌
forget-Keeps h = search (steps, h)

ruleset calls_keep = (
  forget-Keeps, steps, checkstack-Keeps, fixline-Keeps, code_abc-Keeps, code_abx-Keeps,
  luak_nil-Keeps, luak_jump-Keeps, luak_ret-Keeps, patchtohere-Keeps, patchlist-Keeps,
  setreturns-Keeps, setoneret-Keeps, dischargevars-Keeps, string_k-Keeps, number_k-Keeps,
  exp2nextreg-Keeps, exp2anyreg-Keeps, exp2val-Keeps, exp2rk-Keeps, storevar-Keeps, luak_self-Keeps,
  goiftrue-Keeps, indexed-Keeps, code_prefix-Keeps, code_infix-Keeps, code_posfix-Keeps,
)

module _ (num : Numbers) where
  run-Keeps : (c : Call) → Keeps (run num c)
  unfolding run
  run-Keeps (nil from n) = search (calls_keep)
  run-Keeps jump = search (calls_keep)
  run-Keeps (ret first n) = search (calls_keep)
  run-Keeps (patch list target) = search (calls_keep)
  run-Keeps (patch_to_here list) = search (calls_keep)
  run-Keeps (join l1 l2) = search (calls_keep)
  run-Keeps label = search (calls_keep)
  run-Keeps (check_stack n) = search (calls_keep)
  run-Keeps (reserve n) = search (calls_keep)
  run-Keeps (string s) = search (calls_keep)
  run-Keeps (number r) = search (calls_keep)
  run-Keeps (code_of_abc o a b c) = search (calls_keep)
  run-Keeps (code_of_abx o a bc) = search (calls_keep)
  run-Keeps (set_returns e n) = search (calls_keep)
  run-Keeps (set_one_ret e) = search (calls_keep)
  run-Keeps (discharge e) = search (calls_keep)
  run-Keeps (to_next_register e) = search (calls_keep)
  run-Keeps (to_any_register e) = search (calls_keep)
  run-Keeps (to_value e) = search (calls_keep)
  run-Keeps (to_operand e) = search (calls_keep)
  run-Keeps (store var ex) = search (calls_keep)
  run-Keeps (self e key) = search (calls_keep)
  run-Keeps (go_if_true e) = search (calls_keep)
  run-Keeps (index t key) = search (calls_keep)
  run-Keeps (prefix_of op e) = search (calls_keep)
  run-Keeps (infix_of op e) = search (calls_keep)
  run-Keeps (posfix_of op e1 e2) = search (calls_keep)
  run-Keeps (fix_line line) = search (calls_keep)
  run-Keeps (set_argument_b pc n) = search (calls_keep)
  run-Keeps (set_argument_c pc n) = search (calls_keep)

as_word : (n : ℕ) → IsInstruction (n % 2 ^ 32)
as_word n = omega arith

set_list_code-Keeps : (base n line : ℕ) (stored : ℤ) → Keeps (set_list_code base n line stored)
unfolding set_list_code
set_list_code-Keeps base n line stored =
    search (steps, code_abc-Keeps, luak_code-Keeps, as_word) depth 12

-- The stack of a function that has the register `base` keeps it.
setlist-Kept :
    (low base n : ℕ) (stored : ℤ) (fs : FuncState)
    → base < low
    → IsValid low fs
    → Kept low (luak_setlist base n stored fs)
unfolding luak_setlist ◌>>=◌ ◌>>◌ get modify
setlist-Kept low base n stored fs h v =
    bind-Kept low _ _ ((Keeps-assert _).apply low fs v) λ _ fs₁ v₁.
      bind-Kept low _ _ ((set_list_code-Keeps _ _ _ _).apply low fs₁ v₁) λ _ fs₂ v₂.
        sized low fs₂ fs₂.max_stack_size (base + 1) v₂ v₂.stack (omega (arith, h, v₂.bottom))
          v₂.bottom

-- Another lower bound for the stack
with_bound :
    {low : ℕ} {fs : FuncState} (bound : ℕ)
    → IsValid low fs
    → bound ≤ fs.max_stack_size
    → IsValid bound fs
with_bound bound v h = record {
  words = v.words;
  lines = v.lines;
  size = v.size;
  registers = v.registers;
  stack = v.stack;
  bottom = h;
  constants = v.constants;
  table = v.table;
}

Kept-ok :
    {low : ℕ} {fs : FuncState} {r : Outcome (Unit {0} × FuncState)}
    → Kept low r
    → r ≡ ok (tt, fs)
    → IsValid low fs
Kept-ok {low = low} h e = subst (Kept low) e h

setlist-IsValid :
    {low : ℕ} {fs fs' : FuncState} (base n : ℕ) (stored : ℤ)
    → base < fs.freereg
    → luak_setlist base n stored fs ≡ ok (tt, fs')
    → IsValid low fs
    → IsValid low fs'
setlist-IsValid {low = low} {fs = fs} {fs' = fs'} base n stored h e v =
    let v' =
      Kept-ok
        (setlist-Kept fs.max_stack_size base n stored fs (omega (arith, h, v.registers))
          (with_bound fs.max_stack_size v (omega arith)))
        e in
    with_bound low v' (omega (arith, v.bottom, v'.bottom))

module _ (num : Numbers) where
  Step-IsValid : {low : ℕ} {fs fs' : FuncState} → Step num fs fs' → IsValid low fs → IsValid low fs'
  Step-IsValid {low = low} {fs = fs} (calls c e) v = Kept-ok ((run-Keeps num c).apply low fs v) e
  Step-IsValid (set_list base n stored h e) v = setlist-IsValid base n stored h e v
  Step-IsValid (at_line line) v = record {
    words = v.words;
    lines = v.lines;
    size = v.size;
    registers = v.registers;
    stack = v.stack;
    bottom = v.bottom;
    constants = v.constants;
    table = v.table;
  }
  Step-IsValid (variables n) v = record {
    words = v.words;
    lines = v.lines;
    size = v.size;
    registers = v.registers;
    stack = v.stack;
    bottom = v.bottom;
    constants = v.constants;
    table = v.table;
  }
  Step-IsValid {low = low} {fs = fs} (frees reg h) v = lowered low fs reg v h

  -- A state that the parser reaches from a valid one, by calls of the operations of the code generator
  -- that succeed and by its own changes of the line, of the active variables and of the free register,
  -- is valid: every instruction is a word and has a line, at most `MAX_INT` of them, the free register
  -- is within the stack, the stack below `MAXSTACK` and not smaller than before, and every index that
  -- the table of constants gives is that of a constant.
  pub Reach-IsValid :
      (low : ℕ) (fs fs' : FuncState) → IsValid low fs → Reach num fs fs' → IsValid low fs'
  Reach-IsValid low fs fs' v here = v
  Reach-IsValid low fs fs' v (next {fs = fs₁} r s) = Step-IsValid s (Reach-IsValid low fs fs₁ v r)

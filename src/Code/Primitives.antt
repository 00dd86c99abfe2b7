-- ===== src/Code/Primitives.antt =====
-- The operations of lua-5.1.5/src/lcode.c that write the state themselves keep it valid.
use lua_5_1_source_guide.Base.{
  ℕ, suc, ◌+◌, ◌-◌, ◌≤◌, ◌<◌, refl, ◌∙◌, arith, List, [], ◌∷◌, ◌++◌, Bool, ltb, leb, length,
  All-append, All-take, All-map, length-append, length-set, length-take, Bool-cases, Option-cases,
  inl, inr, Option-cases,
}
use lua_5_1_source_guide.Base.Int.{ℤ}
use lua_5_1_source_guide.Opcodes.{IsInstruction, max_arg_bx}
use lua_5_1_source_guide.Opcodes.Words.{
  create_abc-IsInstruction, create_abx-IsInstruction, set_arg_a-IsInstruction,
  set_arg_b-IsInstruction, set_arg_c-IsInstruction,
}
use lua_5_1_source_guide.Chunk.Proto.{Constant}
use lua_5_1_source_guide.Jumps.{at}
use lua_5_1_source_guide.Jumps.Words.{
  AllWords, Rewrites, RewritesWith, at_word, set-IsRewrite, removevalues-Rewrites,
  patchlistaux-Rewrites, concat-RewritesWith,
}
use lua_5_1_source_guide.Code.State.{Outcome, ok, err, stuck, FuncState, Key, ◌>>=◌, ◌>>◌, modify}
use lua_5_1_source_guide.Code.Emit.{
  pc_of, max_int, max_stack, only_code, keep_code, patch_list_aux, remove_values, needs_value,
  luak_concat, edit, getlabel, set_jpc, put_code, checkstack, reserveregs, free_register, fixline,
}
use lua_5_1_source_guide.Code.Constants.{
  Numbers, lookup, is_nan_key, new_constant, found_constant, addk,
}
use lua_5_1_source_guide.Code.Branches.{drop_last}
use lua_5_1_source_guide.Code.Valid.{
  IsValid, Kept, Keeps, Keeps-then, Keeps-bind, Keeps-get, Keeps-return, Keeps-fail, Keeps-assert,
  Keeps-when, Keeps-modify, Keeps-on_code,
}

only_code-RewritesWith :
    (code : List ℕ) (r : Outcome (List ℕ)) → Rewrites code r → RewritesWith code (only_code r)
only_code-RewritesWith code (ok c) h = h
only_code-RewritesWith code (err e) h = tt
only_code-RewritesWith code stuck h = tt

keep_code-RewritesWith :
    (code : List ℕ) (r : Outcome Bool) → AllWords code → RewritesWith code (keep_code code r)
keep_code-RewritesWith code (ok b) h = (refl, h)
keep_code-RewritesWith code (err e) h = tt
keep_code-RewritesWith code stuck h = tt

pub patch_list_aux-Keeps :
    (list vtarget : ℤ) (reg : ℕ) (dtarget : ℤ) → Keeps (patch_list_aux list vtarget reg dtarget)
unfolding patch_list_aux
patch_list_aux-Keeps list vtarget reg dtarget = Keeps-on_code _ λ code h.
    only_code-RewritesWith code _
      (patchlistaux-Rewrites (suc (length code)) code list vtarget reg dtarget h)

pub remove_values-Keeps : (list : ℤ) → Keeps (remove_values list)
unfolding remove_values
remove_values-Keeps list =
    Keeps-on_code _ λ code h.
      only_code-RewritesWith code _ (removevalues-Rewrites (suc (length code)) code list h)

pub needs_value-Keeps : (list : ℤ) → Keeps (needs_value list)
unfolding needs_value
needs_value-Keeps list = Keeps-on_code _ λ code h. keep_code-RewritesWith code _ h

pub luak_concat-Keeps : (l1 l2 : ℤ) → Keeps (luak_concat l1 l2)
unfolding luak_concat
luak_concat-Keeps l1 l2 =
    Keeps-on_code _ λ code h. concat-RewritesWith (suc (length code)) code l1 l2 h

pub edit-Keeps :
    (pc : ℕ) (g : ℕ → ℕ) → ((i : ℕ) → IsInstruction i → IsInstruction (g i)) → Keeps (edit pc g)
unfolding edit
edit-Keeps pc g h = Keeps-modify _ λ low fs v.
    let r =
      set-IsRewrite fs.code pc (g (at fs.code pc)) v.words
        (h (at fs.code pc) (at_word fs.code pc v.words)) in
    record {
      words = r.1;
      lines = omega (arith, v.lines, r.0);
      size = omega (arith, v.size, r.0);
      registers = v.registers;
      stack = v.stack;
      bottom = v.bottom;
      constants = v.constants;
      table = v.table;
    }

pub set_jpc-Keeps : (list : ℤ) → Keeps (set_jpc list)
unfolding set_jpc
set_jpc-Keeps list = Keeps-modify _ λ low fs v. record {
  words = v.words;
  lines = v.lines;
  size = v.size;
  registers = v.registers;
  stack = v.stack;
  bottom = v.bottom;
  constants = v.constants;
  table = v.table;
}

pub getlabel-Keeps : Keeps getlabel
unfolding getlabel
getlabel-Keeps =
    Keeps-then
      (Keeps-modify _ λ low fs v. record {
        words = v.words;
        lines = v.lines;
        size = v.size;
        registers = v.registers;
        stack = v.stack;
        bottom = v.bottom;
        constants = v.constants;
        table = v.table;
      })
      (Keeps-get _)

put-IsValid :
    (low : ℕ) (fs : FuncState) (i line : ℕ)
    → IsInstruction i
    → IsValid low fs
    → pc_of fs < max_int
    → IsValid low (record fs { code = fs.code ++ i ∷ []; lineinfo = fs.lineinfo ++ line ∷ [] })
put-IsValid low fs i line h v room = record {
  words = All-append (λ (x : ℕ). IsInstruction x) fs.code (i ∷ []) v.words (h, tt);
  lines =
      omega (arith, v.lines, length-append fs.code (i ∷ []), length-append fs.lineinfo (line ∷ []));
  size = omega (arith, length-append fs.code (i ∷ []));
  registers = v.registers;
  stack = v.stack;
  bottom = v.bottom;
  constants = v.constants;
  table = v.table;
}

pub put_code-Keeps : (i line : ℕ) → IsInstruction i → Keeps (put_code i line)
unfolding put_code
put_code-Keeps i line h = record {
  apply = λ low fs v. elim (Bool-cases (leb max_int (pc_of fs))) [
    | inl full ↦ rw full tt
    | inr room ↦ rw room (put-IsValid low fs i line h v (ground arith))
  ];
}

-- The free register and the size of the stack, changed together
pub sized :
    (low : ℕ) (fs : FuncState) (m r : ℕ)
    → IsValid low fs
    → m < max_stack
    → r ≤ m
    → low ≤ m
    → IsValid low (record fs { max_stack_size = m; freereg = r })
sized low fs m r v h k l = record {
  words = v.words;
  lines = v.lines;
  size = v.size;
  registers = k;
  stack = h;
  bottom = l;
  constants = v.constants;
  table = v.table;
}

-- What `luaK_checkstack` promises
abbrev Room : ℕ → ℕ → Outcome (Unit {0} × FuncState) → Type 0
Room low n (ok (a, fs)) = IsValid low fs × (fs.freereg + n ≤ fs.max_stack_size)
Room low n (err e) = Unit
Room low n stuck = Unit

checkstack-Room : (low n : ℕ) (fs : FuncState) → IsValid low fs → Room low n (checkstack n fs)
unfolding checkstack
checkstack-Room low n fs v = elim (Bool-cases (ltb fs.max_stack_size (fs.freereg + n))) [
  | inl more ↦ rw more (elim (Bool-cases (leb max_stack (fs.freereg + n))) [
    | inl full ↦ rw full tt
    | inr room ↦ rw room (
      sized low fs (fs.freereg + n) fs.freereg v (ground arith) (omega arith)
          (ground (arith, v.bottom)),
      omega arith,
    )
  ])
  | inr enough ↦ rw enough (v, ground arith)
]

abbrev take_registers : ℕ → FuncState → FuncState
take_registers n fs = record fs { freereg = fs.freereg + n }

reserved :
    (low n : ℕ) (r : Outcome (Unit {0} × FuncState))
    → Room low n r
    → Kept low (elim r as (λ _. Outcome (Unit {0} × FuncState)) [
      | ok (a, fs) ↦ modify (take_registers n) fs
      | err e ↦ err e
      | stuck ↦ stuck
    ])
unfolding modify
reserved low n (ok (a, fs)) h =
    sized low fs fs.max_stack_size (fs.freereg + n) h.0 h.0.stack h.1 h.0.bottom
reserved low n (err e) h = tt
reserved low n stuck h = tt

pub reserveregs-Keeps : (n : ℕ) → Keeps (reserveregs n)
unfolding reserveregs ◌>>◌ ◌>>=◌
reserveregs-Keeps n = record {
  apply = λ low fs v. reserved low n (checkstack n fs) (checkstack-Room low n fs v);
}

has-Room : (low n : ℕ) (r : Outcome (Unit {0} × FuncState)) → Room low n r → Kept low r
has-Room low n (ok (a, fs)) h = h.0
has-Room low n (err e) h = tt
has-Room low n stuck h = tt

pub checkstack-Keeps : (n : ℕ) → Keeps (checkstack n)
checkstack-Keeps n = record {
  apply = λ low fs v. has-Room low n (checkstack n fs) (checkstack-Room low n fs v);
}

-- Fewer registers
pub lowered :
    (low : ℕ) (fs : FuncState) (r : ℕ)
    → IsValid low fs
    → r ≤ fs.freereg
    → IsValid low (record fs { freereg = r })
lowered low fs r v h =
    sized low fs fs.max_stack_size r v v.stack (omega (arith, v.registers)) v.bottom

lower-Keeps : Keeps (modify (λ fs. record fs { freereg = fs.freereg - 1 }))
lower-Keeps = Keeps-modify _ (λ low fs v. lowered low fs (fs.freereg - 1) v (omega arith))

pub free_register-Keeps : (reg : ℕ) → Keeps (free_register reg)
unfolding free_register
free_register-Keeps reg =
    search (Keeps-bind, Keeps-get, Keeps-return, Keeps-assert, Keeps-when, Keeps-then, lower-Keeps)

pub drop_last-Keeps : Keeps drop_last
unfolding drop_last
drop_last-Keeps = Keeps-modify _ λ low fs v. record {
  words = All-take (λ (x : ℕ). IsInstruction x) (length fs.code - 1) fs.code v.words;
  lines = omega (
    arith,
    v.lines,
    length-take (length fs.code - 1) fs.code,
    length-take (length fs.lineinfo - 1) fs.lineinfo,
  );
  size = omega (arith, v.size, length-take (length fs.code - 1) fs.code);
  registers = v.registers;
  stack = v.stack;
  bottom = v.bottom;
  constants = v.constants;
  table = v.table;
}

pub fixline-Keeps : (line : ℕ) → Keeps (fixline line)
unfolding fixline
fixline-Keeps line = Keeps-modify _ λ low fs v. record {
  words = v.words;
  lines = length-set fs.lineinfo (pc_of fs - 1) line ∙ v.lines;
  size = v.size;
  registers = v.registers;
  stack = v.stack;
  bottom = v.bottom;
  constants = v.constants;
  table = v.table;
}

module _ (num : Numbers) where
  added :
      (key : Key) (c : Constant) (low : ℕ) (fs : FuncState)
      → IsValid low fs
      → length fs.k < max_arg_bx
      → IsValid low (record fs { k = fs.k ++ c ∷ []; h = (key, length fs.k) ∷ fs.h })
  added key c low fs v h = record {
    words = v.words;
    lines = v.lines;
    size = v.size;
    registers = v.registers;
    stack = v.stack;
    bottom = v.bottom;
    constants = omega (arith, length-append fs.k (c ∷ []));
    table = (
      omega (arith, length-append fs.k (c ∷ [])),
      All-map (λ (e : Key × ℕ). e.1 < length fs.k) (λ (e : Key × ℕ). e.1 < length (fs.k ++ c ∷ []))
          fs.h (λ e small. omega (arith, length-append fs.k (c ∷ []))) v.table,
    );
  }

  new_constant-Keeps : (key : Key) (c : Constant) → Keeps (new_constant num key c)
  unfolding new_constant
  new_constant-Keeps key c = record {
    apply = λ low fs v. elim (Bool-cases (is_nan_key num key)) [
      | inl nan ↦ rw nan tt
      | inr no_nan ↦ rw no_nan (elim (Bool-cases (leb max_arg_bx (length fs.k))) [
        | inl full ↦ rw full tt
        | inr room ↦ rw room (added key c low fs v (ground arith))
      ])
    ];
  }

  found_constant-Keeps : (i : ℕ) (c : Constant) → Keeps (found_constant num i c)
  unfolding found_constant
  found_constant-Keeps i c = search (Keeps-bind, Keeps-then, Keeps-get, Keeps-assert, Keeps-return)

  pub addk-Keeps : (key : Key) (c : Constant) → Keeps (addk num key c)
  unfolding addk
  addk-Keeps key c = record {
    apply = λ low fs v. elim (Option-cases (lookup num key fs.h)) [
      | inl new ↦ rw (new, addk) ((new_constant-Keeps key c).apply low fs v)
      | inr (i, old) ↦ rw (old, addk) ((found_constant-Keeps i c).apply low fs v)
    ];
  }

-- How an operation is put together
pub ruleset steps = (
  Keeps-bind, Keeps-then, Keeps-return, Keeps-fail, Keeps-get, Keeps-assert, Keeps-when,
  patch_list_aux-Keeps, remove_values-Keeps, needs_value-Keeps, luak_concat-Keeps, edit-Keeps,
  set_jpc-Keeps, getlabel-Keeps, put_code-Keeps, reserveregs-Keeps, free_register-Keeps,
  drop_last-Keeps, create_abc-IsInstruction, create_abx-IsInstruction, set_arg_a-IsInstruction,
  set_arg_b-IsInstruction, set_arg_c-IsInstruction,
)

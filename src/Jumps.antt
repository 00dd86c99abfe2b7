-- ===== src/Jumps.antt =====
-- lua-5.1.5/src/lcode.c: lists of jumps. The jumps of a list are threaded through the code, each with
-- the offset to the next; `code` is `fs->f->code`, and a place in it an index.
pub mod Links
pub mod Words
pub mod Chains
pub mod Joined
pub mod Patched
use lua_5_1_source_guide.Base.{
  ℕ, zero, suc, ◌+◌, ◌-◌, List, Bool, true, false, not, ◌&&◌, ltb, leb, ◌==◌, if◌then◌else◌, get_or,
  set,
}
use lua_5_1_source_guide.Base.Int.{ℤ, pos, negsuc, sub_ℕ, ◌+ℤ◌, pos_part, neg_part}
use lua_5_1_source_guide.Opcodes.{
  get_opcode, get_arg_a, get_arg_b, get_arg_c, get_arg_sbx, set_arg_a, set_arg_sbx, create_abc,
  max_arg_sbx, no_reg,
}
use lua_5_1_source_guide.Opcodes.Table.{OpCode, op_value, test_t_mode}
use lua_5_1_source_guide.Code.State.{Outcome, ok, err, stuck, control_structure_too_long, assertion}

-- `NO_JUMP`
abbrev pub no_jump : ℤ
no_jump = negsuc 0

abbrev pub is_no_jump : ℤ → Bool
is_no_jump (pos n) = false
is_no_jump (negsuc n) = n == 0

abbrev pub at : List ℕ → ℕ → ℕ
at code pc = get_or code pc 0

unfoldable pub getjump : List ℕ → ℕ → ℤ
getjump code pc =
    let offset = get_arg_sbx (at code pc) in
    if is_no_jump offset then no_jump else pos (pc + 1) +ℤ offset

unfoldable pub fixjump : List ℕ → ℕ → ℕ → Outcome (List ℕ)
fixjump code pc dest =
    let offset = sub_ℕ dest (pc + 1) in
    if ltb max_arg_sbx (pos_part offset + neg_part offset)
    then err control_structure_too_long
    else ok (set code pc (set_arg_sbx (at code pc) offset))

-- The place of the instruction that controls a jump
unfoldable pub getjumpcontrol : List ℕ → ℕ → ℕ
getjumpcontrol code pc =
    if leb 1 pc && test_t_mode (get_opcode (at code (pc - 1))) then pc - 1 else pc

-- The loops over a list take rounds, and are stuck when they run out or meet a place before the code.
-- The last element of a list answers `NO_JUMP`.
unfoldable pub need_value : ℕ → List ℕ → ℤ → Outcome Bool
need_value zero code list = stuck
need_value (suc rounds) code (negsuc n) = if n == 0 then ok false else stuck
need_value (suc rounds) code (pos list) =
    let rest = need_value rounds code (getjump code list) in
    if get_opcode (at code (getjumpcontrol code list)) == op_value OpCode.op_testset
    then rest
    else ok true

-- The result, and the code
unfoldable pub patchtestreg : List ℕ → ℕ → ℕ → Bool × List ℕ
patchtestreg code node reg =
    let i = getjumpcontrol code node in
    let word = at code i in
    if not (get_opcode word == op_value OpCode.op_testset)
    then (false, code)
    else if not (reg == no_reg) && not (reg == get_arg_b word)
    then (true, set code i (set_arg_a word reg))
    else (
      true,
      set code i (create_abc (op_value OpCode.op_test) (get_arg_b word) 0 (get_arg_c word)),
    )

unfoldable pub removevalues : ℕ → List ℕ → ℤ → Outcome (List ℕ)
removevalues zero code list = stuck
removevalues (suc rounds) code (negsuc n) = if n == 0 then ok code else stuck
removevalues (suc rounds) code (pos list) =
    let code' = (patchtestreg code list no_reg).1 in removevalues rounds code' (getjump code' list)

-- What follows a `fixjump`, on the code it gives
unfoldable pub and_then : Outcome (List ℕ) → (List ℕ → Outcome (List ℕ)) → Outcome (List ℕ)
and_then (ok code) next = next code
and_then (err e) next = err e
and_then stuck next = stuck

-- `lua_assert(dest != NO_JUMP)` in `fixjump`
unfoldable pub fixjump_to : List ℕ → ℕ → ℤ → Outcome (List ℕ)
fixjump_to code pc (pos dest) = fixjump code pc dest
fixjump_to code pc (negsuc n) = err assertion

unfoldable pub patchlistaux : ℕ → List ℕ → ℤ → ℤ → ℕ → ℤ → Outcome (List ℕ)
patchlistaux zero code list vtarget reg dtarget = stuck
patchlistaux (suc rounds) code (negsuc n) vtarget reg dtarget = if n == 0 then ok code else stuck
patchlistaux (suc rounds) code (pos list) vtarget reg dtarget =
    let patched = patchtestreg code list reg in
    and_then (fixjump_to patched.1 list (if patched.0 then vtarget else dtarget))
      (λ code'. patchlistaux rounds code' (getjump code list) vtarget reg dtarget)

-- What follows a `getjump`: the end of the list, or its next element
unfoldable pub walk_on : ℤ → Outcome (List ℕ) → (ℕ → Outcome (List ℕ)) → Outcome (List ℕ)
walk_on (pos next) here rest = rest next
walk_on (negsuc n) here rest = if n == 0 then here else stuck

-- The loop of `luaK_concat`: fix the last element of the list that begins at `list`.
unfoldable pub append_loop : ℕ → List ℕ → ℕ → ℕ → Outcome (List ℕ)
append_loop zero code list l2 = stuck
append_loop (suc rounds) code list l2 =
    walk_on (getjump code list) (fixjump code list l2) (λ next. append_loop rounds code next l2)

-- The result of `luaK_concat`, whose first list is not empty
unfoldable pub keep_first : ℕ → Outcome (List ℕ) → Outcome (ℤ × List ℕ)
keep_first l1 (ok code) = ok (pos l1, code)
keep_first l1 (err e) = err e
keep_first l1 stuck = stuck

-- `luaK_concat`: the first list, and the code
unfoldable pub concat : ℕ → List ℕ → ℤ → ℤ → Outcome (ℤ × List ℕ)
concat rounds code l1 (negsuc n) = ok (l1, code)
concat rounds code (negsuc n) (pos l2) = ok (pos l2, code)
concat rounds code (pos l1) (pos l2) = keep_first l1 (append_loop rounds code l1 l2)

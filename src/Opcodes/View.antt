-- ===== src/Opcodes/View.antt =====
-- An instruction word is the four numbers op, A, B and C (lua-5.1.5/src/lopcodes.h): the macros
-- that build, read and change a word against updates of that record.
use lua_5_1_source_guide.Base.{ℕ, suc, ◌+◌, ◌-◌, ◌*◌, ◌≤◌, ◌≡◌, arith, true, false}
use lua_5_1_source_guide.Base.Bits.{join_field, keep_field, clear_field}
use lua_5_1_source_guide.Base.Int.{ℤ, pos, negsuc, ◌≤ℤ◌, ◌+ℤ◌}
use lua_5_1_source_guide.Opcodes.{
  IsInstruction, get_opcode, get_arg_a, get_arg_b, get_arg_c, get_arg_bx, get_arg_sbx, set_opcode,
  set_arg_a, set_arg_b, set_arg_c, set_arg_bx, set_arg_sbx, create_abc, create_abx, is_k, index_k,
  rk_as_k, max_index_rk,
}
use lua_5_1_source_guide.Opcodes.Fields.{
  read_opcode, read_a, read_b, read_c, read_bx, write_opcode, write_a, write_b, write_c, write_bx,
  build_abc, build_abx,
}

pub record Fields : Type 0 where
  pub op : ℕ
  pub a : ℕ
  pub b : ℕ
  pub c : ℕ

unfoldable pub view : ℕ → Fields
view i = record { op = get_opcode i; a = get_arg_a i; b = get_arg_b i; c = get_arg_c i }

pub record InRange (f : Fields) : Type 0 where
  pub op_fits : f.op ≤ 63
  pub a_fits : f.a ≤ 255
  pub b_fits : f.b ≤ 511
  pub c_fits : f.c ≤ 511

-- `CREATE_ABC` of four numbers that fit their fields is a 32-bit word, and the `GET` macros read
-- the four numbers back.
pub view-create_abc :
    (f : Fields)
    → InRange f
    → IsInstruction (create_abc f.op f.a f.b f.c) × (view (create_abc f.op f.a f.b f.c) ≡ f)
unfolding view
view-create_abc f r =
    let w = create_abc f.op f.a f.b f.c in
    ground (arith, build_abc f.op f.a f.b f.c, read_opcode w, read_a w, read_b w, read_c w)

-- Every 32-bit word is `CREATE_ABC` of its own four fields, and each of them is in range: no bit of
-- a word lies outside the fields.
pub create_abc-view :
    (i : ℕ)
    → IsInstruction i
    → InRange (view i) × (create_abc (view i).op (view i).a (view i).b (view i).c ≡ i)
unfolding view
create_abc-view i h = ground (
  arith,
  build_abc (get_opcode i) (get_arg_a i) (get_arg_b i) (get_arg_c i),
  read_opcode i,
  read_a i,
  read_b i,
  read_c i,
)

view-set_opcode :
    (i u : ℕ) → IsInstruction i → u ≤ 63 → view (set_opcode i u) ≡ record (view i) { op = u }
unfolding view
view-set_opcode i u h k =
    let w = set_opcode i u in
    ground (
      arith,
      write_opcode i u h k,
      read_opcode w,
      read_a w,
      read_b w,
      read_c w,
      read_opcode i,
      read_a i,
      read_b i,
      read_c i,
    )

view-set_arg_a :
    (i u : ℕ) → IsInstruction i → u ≤ 255 → view (set_arg_a i u) ≡ record (view i) { a = u }
unfolding view
view-set_arg_a i u h k =
    let w = set_arg_a i u in
    ground (
      arith,
      write_a i u h k,
      read_opcode w,
      read_a w,
      read_b w,
      read_c w,
      read_opcode i,
      read_a i,
      read_b i,
      read_c i,
    )

view-set_arg_b :
    (i u : ℕ) → IsInstruction i → u ≤ 511 → view (set_arg_b i u) ≡ record (view i) { b = u }
unfolding view
view-set_arg_b i u h k =
    let w = set_arg_b i u in
    ground (
      arith,
      write_b i u h k,
      read_opcode w,
      read_a w,
      read_b w,
      read_c w,
      read_opcode i,
      read_a i,
      read_b i,
      read_c i,
    )

view-set_arg_c :
    (i u : ℕ) → IsInstruction i → u ≤ 511 → view (set_arg_c i u) ≡ record (view i) { c = u }
unfolding view
view-set_arg_c i u h k =
    let w = set_arg_c i u in
    ground (
      arith,
      write_c i u h k,
      read_opcode w,
      read_a w,
      read_b w,
      read_c w,
      read_opcode i,
      read_a i,
      read_b i,
      read_c i,
    )

-- On a word, each `SET` macro gives its own field a value that fits it, and changes no other field.
pub view-set :
    (i : ℕ) (f : Fields)
    → IsInstruction i
    → InRange f
    → (view (set_opcode i f.op) ≡ record (view i) { op = f.op })
      × (view (set_arg_a i f.a) ≡ record (view i) { a = f.a })
      × (view (set_arg_b i f.b) ≡ record (view i) { b = f.b })
      × (view (set_arg_c i f.c) ≡ record (view i) { c = f.c })
view-set i f h r = (
  view-set_opcode i f.op h r.op_fits,
  view-set_arg_a i f.a h r.a_fits,
  view-set_arg_b i f.b h r.b_fits,
  view-set_arg_c i f.c h r.c_fits,
)

-- The field Bx is B and C read together, `CREATE_ABx` and `SETARG_Bx` fill it, and leave op and A.
pub bx-view :
    (i bx : ℕ)
    → IsInstruction i
    → bx ≤ 262143
    → (get_arg_bx i ≡ get_arg_b i * 512 + get_arg_c i)
      × (get_arg_bx (set_arg_bx i bx) ≡ bx)
      × (get_opcode (set_arg_bx i bx) ≡ get_opcode i)
      × (get_arg_a (set_arg_bx i bx) ≡ get_arg_a i)
      × (create_abx (get_opcode i) (get_arg_a i) bx ≡ set_arg_bx i bx)
bx-view i bx h k =
    let w = set_arg_bx i bx in
    ground (
      arith,
      write_bx i bx h k,
      read_opcode w,
      read_a w,
      read_bx w,
      read_opcode i,
      read_a i,
      read_b i,
      read_c i,
      read_bx i,
      build_abx (get_opcode i) (get_arg_a i) bx,
    )

-- A signed argument from -131071 to 131072 is read back as it was written, and `SETARG_sBx` leaves
-- op and A.
pub get_arg_sbx-set :
    (i : ℕ) (b : ℤ)
    → IsInstruction i
    → negsuc 131070 ≤ℤ b
    → b ≤ℤ pos 131072
    → (get_arg_sbx (set_arg_sbx i b) ≡ b)
      × (get_opcode (set_arg_sbx i b) ≡ get_opcode i)
      × (get_arg_a (set_arg_sbx i b) ≡ get_arg_a i)
unfolding get_arg_sbx set_arg_sbx ◌+ℤ◌
get_arg_sbx-set i (pos n) h lo hi =
    let e : set_arg_sbx i (pos n) ≡ set_arg_bx i (n + 131071) = ground arith in
    let r = bx-view i (n + 131071) h (omega arith) in ground (arith, e, r)
get_arg_sbx-set i (negsuc n) h lo hi =
    let e : set_arg_sbx i (negsuc n) ≡ set_arg_bx i (131071 - suc n) = ground arith in
    let r = bx-view i (131071 - suc n) h (omega arith) in ground (arith, e, r)

-- A constant index up to `MAXINDEXRK` is marked by `RKASK`, recognised by `ISK` and restored by
-- `INDEXK`; a register up to there is no constant.
pub index_k-rk_as_k :
    (x : ℕ)
    → x ≤ max_index_rk
    → (is_k (rk_as_k x) ≡ true) × (index_k (rk_as_k x) ≡ x) × (rk_as_k x ≤ 511) × (is_k x ≡ false)
unfolding is_k rk_as_k index_k
index_k-rk_as_k x h = ground (
  arith,
  join_field 8 1 0 1 x,
  keep_field 8 1 (x + 256),
  keep_field 8 1 x,
  clear_field 8 1 23 (x + 256),
)

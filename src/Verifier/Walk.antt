-- ===== src/Verifier/Walk.antt =====
-- The places that `luaG_checkcode` (lua-5.1.5/src/ldebug.c) visits, and what is checked there.
use lua_5_1_source_guide.Base.{
  ℕ, zero, suc, ◌+◌, ◌-◌, ◌≤◌, ◌<◌, ◌≡◌, ◌≢◌, refl, ap, subst, ◌∙◌, arith, List, [], ◌∷◌, Option,
  none, some, Bool, true, false, ◌&&◌, ltb, if◌then◌else◌, length, get_elem?, Bool-cases,
  Option-cases, inl, inr,
}
use lua_5_1_source_guide.Base.Int.{ℤ, pos, negsuc}
use lua_5_1_source_guide.Opcodes.{get_opcode, no_reg}
use lua_5_1_source_guide.Opcodes.Table.{OpCode, op_value}
use lua_5_1_source_guide.Chunk.Proto.{Head, Protos, DebugInfo, Proto, proto}
use lua_5_1_source_guide.Verifier.{
  op_codes, decode, word_at, has_op, precheck, is_setlist0, checks, follow_jump, next_pc, next_last,
  symb_loop, symbexec, code_size, is_code, check_code,
}

Enumerates : ℕ → List OpCode → Type 0
Enumerates n [] = Unit
Enumerates n (o ∷ os) = (op_value o ≡ n) × Enumerates (suc n) os

enumerated :
    (n i : ℕ) (os : List OpCode) (o : OpCode)
    → Enumerates n os
    → get_elem? os i ≡ some o
    → n + i ≡ op_value o
unfolding Enumerates
enumerated n i [] o h e = cc
enumerated n zero (x ∷ os) o h e =
    let same : x ≡ o = ap (λ (q : Option OpCode). elim q [ none ↦ x | some y ↦ y ]) e in
    omega (arith, h.0, ap op_value same)
enumerated n (suc i) (x ∷ os) o h e = omega (arith, enumerated (suc n) i os o h.1 e)

op_codes-Enumerates : Enumerates 0 op_codes
unfolding Enumerates op_value
op_codes-Enumerates = omega arith

-- A decoded opcode has the value in the word.
pub decode-op_value : (i : ℕ) (o : OpCode) → decode i ≡ some o → get_opcode i ≡ op_value o
unfolding decode
decode-op_value i o e = omega (arith, enumerated 0 (get_opcode i) op_codes o op_codes-Enumerates e)

coded : (o : OpCode) → get_elem? op_codes (op_value o) ≡ some o
unfolding op_value
coded OpCode.op_move = refl
coded _ = refl

pub decode-op : (i : ℕ) (o : OpCode) → has_op i o ≡ true → decode i ≡ some o
unfolding decode
decode-op i o h =
    let value : op_value o ≡ get_opcode i = ground arith in
    subst (λ (n : ℕ). get_elem? op_codes n ≡ some o) value (coded o)

follow_none : (lastpc pc : ℕ) (z : ℤ) → follow_jump lastpc no_reg pc z ≡ pc + 1
unfolding follow_jump
follow_none lastpc pc (negsuc n) = refl
follow_none lastpc pc (pos d) = refl

pub after : List ℕ → ℕ → ℕ
after code pc = if is_setlist0 (word_at code pc) then pc + 2 else pc + 1

next_pc-after :
    (ps : Protos) (o : OpCode) (code : List ℕ) (lastpc pc : ℕ)
    → get_opcode (word_at code pc) ≡ op_value o
    → next_pc ps o (word_at code pc) lastpc no_reg pc ≡ after code pc
unfolding next_pc after is_setlist0 op_value
next_pc-after ps OpCode.op_jmp code lastpc pc e = rw e (follow_none lastpc pc _)
next_pc-after ps OpCode.op_forloop code lastpc pc e = rw e (follow_none lastpc pc _)
next_pc-after ps OpCode.op_forprep code lastpc pc e = rw e (follow_none lastpc pc _)
next_pc-after ps OpCode.op_setlist code lastpc pc e = rw e refl
next_pc-after ps _ code lastpc pc e = rw e refl

-- The places visited one after the other: a count behind an `OP_SETLIST` is passed over.
pub data Walk (code : List ℕ) : ℕ → Type 0 where
  start : Walk code 0
  step : {pc : ℕ} → Walk code pc → pc < length code → Walk code (after code pc)

-- What is known of a visited place
pub record Checked (f : Head) (ps : Protos) (pc : ℕ) : Type 0 where
  pub op : OpCode
  pub decoded : decode (word_at f.code pc) ≡ some op
  pub passes : checks f ps pc (word_at f.code pc) op ≡ true

-- The loop ends, and not in 0.
abbrev pub Accepts : Option ℕ → Type 0
Accepts none = ⊥
Accepts (some n) = n ≢ 0

-- A run that does not end in 0 passes the checks, and goes on.
record Goes (f : Head) (ps : Protos) (rounds pc : ℕ) : Type 0 where
  checked : Checked f ps pc
  rest : ℕ
  accepted : Accepts (symb_loop f ps (length f.code) no_reg rounds (after f.code pc) rest)

module _ (f : Head) (ps : Protos) (lastpc reg rounds pc last : ℕ)
    (inside : ltb pc lastpc ≡ true) where
  pub loop_bad :
      decode (word_at f.code pc) ≡ none → symb_loop f ps lastpc reg (suc rounds) pc last ≡ some 0
  unfolding symb_loop
  loop_bad e = rw (inside, symb_loop, e) refl

  pub loop_fails :
      (o : OpCode)
      → decode (word_at f.code pc) ≡ some o
      → checks f ps pc (word_at f.code pc) o ≡ false
      → symb_loop f ps lastpc reg (suc rounds) pc last ≡ some 0
  unfolding symb_loop
  loop_fails o e c = rw (inside, symb_loop, e, c) refl

  pub loop_goes :
      (o : OpCode)
      → decode (word_at f.code pc) ≡ some o
      → checks f ps pc (word_at f.code pc) o ≡ true
      → symb_loop f ps lastpc reg (suc rounds) pc last
        ≡ symb_loop f ps lastpc reg rounds
            (next_pc ps o (word_at f.code pc) lastpc reg pc)
            (next_last o (word_at f.code pc) reg pc last)
  unfolding symb_loop
  loop_goes o e c = rw (inside, symb_loop, e, c) refl

goes :
    (f : Head) (ps : Protos) (rounds pc last : ℕ)
    → pc < length f.code
    → Accepts (symb_loop f ps (length f.code) no_reg (suc rounds) pc last)
    → Goes f ps rounds pc
goes f ps rounds pc last h ne =
    let size = length f.code in
    let inside : ltb pc size ≡ true = ground arith in
    elim (Option-cases (decode (word_at f.code pc))) [
      | inl bad ↦
          absurd (subst Accepts (loop_bad f ps size no_reg rounds pc last inside bad) ne refl)
      | inr (o, e) ↦ elim (Bool-cases (checks f ps pc (word_at f.code pc) o)) [
        | inr fails ↦
            absurd
              (subst Accepts (loop_fails f ps size no_reg rounds pc last inside o e fails) ne refl)
        | inl passes ↦ record {
          checked = record { op = o; decoded = e; passes = passes };
          rest = next_last o (word_at f.code pc) no_reg pc last;
          accepted =
              subst Accepts
                (loop_goes f ps size no_reg rounds pc last inside o e passes
                  ∙ ap
                      (λ (n : ℕ).
                        symb_loop f ps size no_reg rounds n
                          (next_last o (word_at f.code pc) no_reg pc last))
                      (next_pc-after ps o f.code size pc (decode-op_value _ o e)))
                ne;
        }
      ]
    ]

-- A run from a place, with rounds enough
pub record Runs (f : Head) (ps : Protos) (pc : ℕ) : Type 0 where
  pub rounds : ℕ
  pub last : ℕ
  pub enough : length f.code ≤ pc + rounds
  pub accepted : Accepts (symb_loop f ps (length f.code) no_reg rounds pc last)

after_grows : (code : List ℕ) (pc : ℕ) → pc + 1 ≤ after code pc
unfolding after
after_grows code pc = ground arith

advance :
    (f : Head) (ps : Protos) (pc rounds last : ℕ)
    → pc < length f.code
    → length f.code ≤ pc + rounds
    → Accepts (symb_loop f ps (length f.code) no_reg rounds pc last)
    → Checked f ps pc × Runs f ps (after f.code pc)
advance f ps pc zero last h enough ne = absurd (omega arith)
advance f ps pc (suc rounds) last h enough ne =
    let g = goes f ps rounds pc last h ne in
    (
      g.checked,
      record {
        rounds = rounds;
        last = g.rest;
        enough = omega (arith, after_grows f.code pc, enough);
        accepted = g.accepted;
      },
    )

pub and_left : (a b : Bool) → a && b ≡ true → a ≡ true
and_left true b h = refl
and_left false b h = h

pub and_right : (a b : Bool) → a && b ≡ true → b ≡ true
and_right true b h = h
and_right false b h = absurd cc

-- An accepted function
pub record Accepted (f : Head) (ps : Protos) : Type 0 where
  pub prechecked : (d : DebugInfo) × (precheck (proto f ps d) ≡ true)
  pub runs : Runs f ps 0

is_code-Accepts : (r : Option ℕ) → is_code r ≡ true → Accepts r
is_code-Accepts none h = absurd cc
is_code-Accepts (some n) h = λ e. absurd (ground (arith, h, e))

accepts : (p : Proto) → check_code p ≡ true → Accepts (symbexec p (code_size p) no_reg)
unfolding check_code
accepts p h = is_code-Accepts (symbexec p (code_size p) no_reg) h

symbexec_good :
    (f : Head) (ps : Protos) (d : DebugInfo) (lastpc reg : ℕ)
    → precheck (proto f ps d) ≡ true
    → symbexec (proto f ps d) lastpc reg ≡ symb_loop f ps lastpc reg lastpc 0 (length f.code - 1)
unfolding symbexec
symbexec_good f ps d lastpc reg e = rw e refl

symbexec_bad :
    (f : Head) (ps : Protos) (d : DebugInfo) (lastpc reg : ℕ)
    → precheck (proto f ps d) ≡ false
    → symbexec (proto f ps d) lastpc reg ≡ some 0
unfolding symbexec
symbexec_bad f ps d lastpc reg e = rw e refl

pub check_code-Accepted :
    (f : Head) (ps : Protos) (d : DebugInfo) → check_code (proto f ps d) ≡ true → Accepted f ps
check_code-Accepted f ps d h = elim (Bool-cases (precheck (proto f ps d))) [
  | inl pre ↦ record {
    prechecked = (d, pre);
    runs = record {
      rounds = length f.code;
      last = length f.code - 1;
      enough = omega arith;
      accepted =
          subst Accepts (symbexec_good f ps d (length f.code) no_reg pre)
            (accepts (proto f ps d) h);
    };
  }
  | inr bad ↦ absurd (
      subst Accepts (symbexec_bad f ps d (length f.code) no_reg bad) (accepts (proto f ps d) h)
        refl)
]

Runs-at : (f : Head) (ps : Protos) → Accepted f ps → (pc : ℕ) → Walk f.code pc → Runs f ps pc
Runs-at f ps a _ start = a.runs
Runs-at f ps a _ (step {pc = pc} w h) =
    let r = Runs-at f ps a pc w in (advance f ps pc r.rounds r.last h r.enough r.accepted).1

-- Every visited place passes the checks.
pub Checked-at :
    (f : Head) (ps : Protos)
    → Accepted f ps
    → (pc : ℕ) → Walk f.code pc
    → pc < length f.code
    → Checked f ps pc
Checked-at f ps a pc w h =
    let r = Runs-at f ps a pc w in (advance f ps pc r.rounds r.last h r.enough r.accepted).0

pub after_count :
    (code : List ℕ) (pc : ℕ)
    → Walk code pc
    → pc < length code
    → is_setlist0 (word_at code pc) ≡ true
    → Walk code (pc + 2)
unfolding after
after_count code pc w h e = subst (Walk code) (ground arith) (step w h)

pub after_one :
    (code : List ℕ) (pc : ℕ)
    → Walk code pc
    → pc < length code
    → is_setlist0 (word_at code pc) ≡ false
    → Walk code (pc + 1)
unfolding after
after_one code pc w h e = subst (Walk code) (ground arith) (step w h)

-- ===== src/Jumps/Words.antt =====
-- The operations on lists of jumps (lua-5.1.5/src/lcode.c) leave a code of 32-bit words, as long as
-- before, whatever the links are.
use lua_5_1_source_guide.Base.{
  ℕ, zero, suc, ◌+◌, ◌≡◌, refl, ◌∙◌, arith, List, not, ◌&&◌, ltb, ◌==◌, length, set, length-set,
  All, All-set, All-get_or, Bool-cases, inl, inr,
}
use lua_5_1_source_guide.Base.Int.{ℤ, pos, negsuc, sub_ℕ, pos_part, neg_part}
use lua_5_1_source_guide.Opcodes.{IsInstruction, max_arg_sbx, get_opcode, get_arg_b, no_reg}
use lua_5_1_source_guide.Opcodes.Table.{OpCode, op_value}
use lua_5_1_source_guide.Opcodes.Words.{
  create_abc-IsInstruction, set_arg_a-IsInstruction, set_arg_sbx-IsInstruction,
}
use lua_5_1_source_guide.Code.State.{Outcome, ok, err, stuck}
use lua_5_1_source_guide.Jumps.{
  at, getjumpcontrol, fixjump, fixjump_to, patchtestreg, removevalues, and_then, patchlistaux,
  walk_on, keep_first, append_loop, concat,
}

abbrev pub AllWords : List ℕ → Type 0
AllWords code = All (λ (i : ℕ). IsInstruction i) code

-- As long as `code`, and words
abbrev pub IsRewrite : List ℕ → List ℕ → Type 0
IsRewrite code code' = (length code' ≡ length code) × AllWords code'

abbrev pub Rewrites : List ℕ → Outcome (List ℕ) → Type 0
Rewrites code (ok code') = IsRewrite code code'
Rewrites code (err e) = Unit
Rewrites code stuck = Unit

pub at_word : (code : List ℕ) (i : ℕ) → AllWords code → IsInstruction (at code i)
at_word code i h = All-get_or (λ (x : ℕ). IsInstruction x) code i 0 h (omega arith)

pub set-IsRewrite :
    (code : List ℕ) (i v : ℕ) → AllWords code → IsInstruction v → IsRewrite code (set code i v)
set-IsRewrite code i v h p =
    (length-set code i v, All-set (λ (x : ℕ). IsInstruction x) code i v h p)

Rewrites-earlier :
    (a b : List ℕ) (r : Outcome (List ℕ)) → length b ≡ length a → Rewrites b r → Rewrites a r
Rewrites-earlier a b (ok c) e h = (h.0 ∙ e, h.1)
Rewrites-earlier a b (err x) e h = tt
Rewrites-earlier a b stuck e h = tt

pub fixjump-Rewrites :
    (code : List ℕ) (pc dest : ℕ) → AllWords code → Rewrites code (fixjump code pc dest)
unfolding fixjump
fixjump-Rewrites code pc dest h =
    elim (Bool-cases
      (ltb max_arg_sbx (pos_part (sub_ℕ dest (pc + 1)) + neg_part (sub_ℕ dest (pc + 1))))) [
        | inl long ↦ rw long tt
        | inr short ↦ rw short (
            set-IsRewrite code pc _ h
              (set_arg_sbx-IsInstruction (at code pc) _ (at_word code pc h)))
      ]

fixjump_to-Rewrites :
    (code : List ℕ) (pc : ℕ) (dest : ℤ) → AllWords code → Rewrites code (fixjump_to code pc dest)
unfolding fixjump_to
fixjump_to-Rewrites code pc (pos dest) h = fixjump-Rewrites code pc dest h
fixjump_to-Rewrites code pc (negsuc n) h = tt

pub patchtestreg-IsRewrite :
    (code : List ℕ) (node reg : ℕ) → AllWords code → IsRewrite code (patchtestreg code node reg).1
unfolding patchtestreg
patchtestreg-IsRewrite code node reg h =
    let i : ℕ = getjumpcontrol code node in
    elim (Bool-cases (not (get_opcode (at code i) == op_value OpCode.op_testset))) [
      | inl other ↦ rw other (refl, h)
      | inr test_set ↦
          rw test_set
            (elim (Bool-cases (not (reg == no_reg) && not (reg == get_arg_b (at code i)))) [
              | inl moves ↦ rw moves (
                  set-IsRewrite code i _ h
                    (set_arg_a-IsInstruction (at code i) reg (at_word code i h)))
              | inr stays ↦ rw stays (set-IsRewrite code i _ h (create_abc-IsInstruction _ _ _ _))
            ])
    ]

pub removevalues-Rewrites :
    (rounds : ℕ) (code : List ℕ) (list : ℤ)
    → AllWords code
    → Rewrites code (removevalues rounds code list)
unfolding removevalues
removevalues-Rewrites zero code list h = tt
removevalues-Rewrites (suc rounds) code (negsuc n) h = elim (Bool-cases (n == 0)) [
  | inl last ↦ rw last (refl, h)
  | inr before ↦ rw before tt
]
removevalues-Rewrites (suc rounds) code (pos list) h =
    let r = patchtestreg-IsRewrite code list no_reg h in
    Rewrites-earlier code _ _ r.0 (removevalues-Rewrites rounds _ _ r.1)

and_then-Rewrites :
    (code : List ℕ) (r : Outcome (List ℕ)) (next : List ℕ → Outcome (List ℕ))
    → Rewrites code r
    → ((c : List ℕ) → AllWords c → Rewrites c (next c))
    → Rewrites code (and_then r next)
unfolding and_then
and_then-Rewrites code (ok c) next h k = Rewrites-earlier code c _ h.0 (k c h.1)
and_then-Rewrites code (err e) next h k = tt
and_then-Rewrites code stuck next h k = tt

pub patchlistaux-Rewrites :
    (rounds : ℕ) (code : List ℕ) (list vtarget : ℤ) (reg : ℕ) (dtarget : ℤ)
    → AllWords code
    → Rewrites code (patchlistaux rounds code list vtarget reg dtarget)
unfolding patchlistaux
patchlistaux-Rewrites zero code list vtarget reg dtarget h = tt
patchlistaux-Rewrites (suc rounds) code (negsuc n) vtarget reg dtarget h =
    elim (Bool-cases (n == 0)) [ inl last ↦ rw last (refl, h) | inr before ↦ rw before tt ]
patchlistaux-Rewrites (suc rounds) code (pos list) vtarget reg dtarget h =
    let r = patchtestreg-IsRewrite code list reg h in
    Rewrites-earlier code _ _ r.0 (
      and_then-Rewrites _ _ _ (fixjump_to-Rewrites _ list _ r.1)
        (λ c words. patchlistaux-Rewrites rounds c _ vtarget reg dtarget words))

walk_on-Rewrites :
    (code : List ℕ) (next : ℤ) (here : Outcome (List ℕ)) (rest : ℕ → Outcome (List ℕ))
    → Rewrites code here
    → ((n : ℕ) → Rewrites code (rest n))
    → Rewrites code (walk_on next here rest)
unfolding walk_on
walk_on-Rewrites code (pos n) here rest h k = k n
walk_on-Rewrites code (negsuc n) here rest h k = elim (Bool-cases (n == 0)) [
  | inl last ↦ rw last h
  | inr before ↦ rw before tt
]

append_loop-Rewrites :
    (rounds : ℕ) (code : List ℕ) (list l2 : ℕ)
    → AllWords code
    → Rewrites code (append_loop rounds code list l2)
unfolding append_loop
append_loop-Rewrites zero code list l2 h = tt
append_loop-Rewrites (suc rounds) code list l2 h =
    walk_on-Rewrites code _ _ _ (fixjump-Rewrites code list l2 h)
      (λ n. append_loop-Rewrites rounds code n l2 h)

-- The same with a result beside the code
abbrev pub RewritesWith : {A : Type 0} → List ℕ → Outcome (A × List ℕ) → Type 0
RewritesWith code (ok (a, code')) = IsRewrite code code'
RewritesWith code (err e) = Unit
RewritesWith code stuck = Unit

keep_first-Rewrites :
    (code : List ℕ) (l1 : ℕ) (r : Outcome (List ℕ))
    → Rewrites code r
    → RewritesWith code (keep_first l1 r)
unfolding keep_first
keep_first-Rewrites code l1 (ok c) h = h
keep_first-Rewrites code l1 (err e) h = tt
keep_first-Rewrites code l1 stuck h = tt

pub concat-RewritesWith :
    (rounds : ℕ) (code : List ℕ) (l1 l2 : ℤ)
    → AllWords code
    → RewritesWith code (concat rounds code l1 l2)
unfolding concat
concat-RewritesWith rounds code (pos a) (negsuc n) h = (refl, h)
concat-RewritesWith rounds code (negsuc a) (negsuc n) h = (refl, h)
concat-RewritesWith rounds code (negsuc a) (pos b) h = (refl, h)
concat-RewritesWith rounds code (pos a) (pos b) h =
    keep_first-Rewrites code a _ (append_loop-Rewrites rounds code a b h)

-- ===== src/Jumps/Patched.antt =====
-- `patchlistaux` (lua-5.1.5/src/lcode.c), as `dischargejpc` and `luaK_patchlist` use it: with one target.
use lua_5_1_source_guide.Base.{
  ℕ, zero, suc, ◌≤◌, ◌<◌, ◌≡◌, ◌≢◌, refl, sym, ap, subst, ◌∙◌, arith, List, [], ◌∷◌, Bool, true,
  false, not, ◌&&◌, ◌==◌, if◌then◌else◌, length, All, Bool-cases, inl, inr, get_or-set_ne,
}
use lua_5_1_source_guide.Base.Int.{ℤ, pos}
use lua_5_1_source_guide.Opcodes.{get_opcode, get_arg_b, no_reg}
use lua_5_1_source_guide.Opcodes.Table.{OpCode, op_value}
use lua_5_1_source_guide.Code.State.{Outcome, ok}
use lua_5_1_source_guide.Jumps.{
  at, getjump, getjumpcontrol, fixjump, fixjump_to, patchtestreg, and_then, patchlistaux,
}
use lua_5_1_source_guide.Jumps.Links.{getjump-fixjump}
use lua_5_1_source_guide.Jumps.Words.{
  AllWords, at_word, Rewrites, fixjump-Rewrites, patchtestreg-IsRewrite,
}
use lua_5_1_source_guide.Jumps.Chains.{ListOf, count, count-head}
use lua_5_1_source_guide.Jumps.Joined.{getjump-same, ListOf-kept, spare, All-spare}

abbrev pub IsJump : List ℕ → ℕ → Type 0
IsJump code x = get_opcode (at code x) ≡ op_value OpCode.op_jmp

-- `patchtestreg` changes no instruction but an OP_TESTSET.
patchtestreg-IsJump :
    (code : List ℕ) (node reg j : ℕ)
    → IsJump code j
    → at (patchtestreg code node reg).1 j ≡ at code j
unfolding patchtestreg op_value
patchtestreg-IsJump code node reg j h =
    let i : ℕ = getjumpcontrol code node in
    elim (Bool-cases (not (get_opcode (at code i) == op_value OpCode.op_testset))) [
      | inl other ↦ rw other refl
      | inr test_set ↦
          let ne : i ≢ j = λ e. absurd (ground (arith, ap (λ (z : ℕ). get_opcode (at code z)) e)) in
          rw test_set
            (elim (Bool-cases (not (reg == no_reg) && not (reg == get_arg_b (at code i)))) [
              | inl moves ↦ rw moves (get_or-set_ne code i j _ 0 ne)
              | inr stays ↦ rw stays (get_or-set_ne code i j _ 0 ne)
            ])
    ]

-- Every place of `xs` jumps to `target`, and no other jump changed.
pub record Patched (xs code : List ℕ) (target : ℕ) (code' : List ℕ) : Type 0 where
  pub same_length : length code' ≡ length code
  pub jumps : All (λ (x : ℕ). getjump code' x ≡ pos target) xs
  pub elsewhere : (j : ℕ) → count j xs ≡ 0 → IsJump code j → at code' j ≡ at code j

if_same : {A : Type 0} (b : Bool) (a : A) → (if b then a else a) ≡ a
if_same true a = refl
if_same false a = refl

one_step :
    (rounds : ℕ) (code : List ℕ) (x reg t : ℕ) (code₁ : List ℕ)
    → fixjump (patchtestreg code x reg).1 x t ≡ ok code₁
    → patchlistaux (suc rounds) code (pos x) (pos t) reg (pos t)
      ≡ patchlistaux rounds code₁ (getjump code x) (pos t) reg (pos t)
unfolding patchlistaux fixjump_to and_then
one_step rounds code x reg t code₁ runs =
    let p = patchtestreg code x reg in
    let next : List ℕ → Outcome (List ℕ) =
      λ code'. patchlistaux rounds code' (getjump code x) (pos t) reg (pos t) in
    ap (λ (d : ℤ). and_then (fixjump_to p.1 x d) next) (if_same p.0 (pos t))
    ∙ ap (λ (o : Outcome (List ℕ)). and_then o next) runs

-- A round, after which the other jumps are as before
pub record Step (code : List ℕ) (x target : ℕ) (code' : List ℕ) : Type 0 where
  pub same_length : length code' ≡ length code
  pub words : AllWords code'
  pub link : getjump code' x ≡ pos target
  pub jump : IsJump code' x
  pub others : (j : ℕ) → x ≢ j → IsJump code j → at code' j ≡ at code j

step :
    (code : List ℕ) (x reg t : ℕ)
    → length code ≤ 131071
    → AllWords code
    → t ≤ length code
    → x < length code
    → IsJump code x
    → t ≢ x
    → (code' : List ℕ) × (fixjump (patchtestreg code x reg).1 x t ≡ ok code') × Step code x t code'
step code x reg t s w small inside jump ne =
    let p = (patchtestreg code x reg).1 in
    let (long, words) = patchtestreg-IsRewrite code x reg w in
    let (code', runs, fixed) =
      getjump-fixjump p x t (omega (arith, inside, long)) (at_word p x words) ne
        (omega (arith, small)) (omega (arith, inside)) in
    (
      code',
      runs,
      record {
        same_length = fixed.same_length ∙ long;
        words = (subst (Rewrites p) runs (fixjump-Rewrites p x t words)).1;
        link = fixed.link;
        jump = fixed.opcode ∙ ap get_opcode (patchtestreg-IsJump code x reg x jump) ∙ jump;
        others = λ j out is_jump. fixed.elsewhere j out ∙ patchtestreg-IsJump code x reg j is_jump;
      },
    )

pub All-map₂ :
    {A : Type 0} (P Q R : A → Type 0) (xs : List A)
    → ((x : A) → P x → Q x → R x)
    → All P xs
    → All Q xs
    → All R xs
All-map₂ P Q R [] f h k = tt
All-map₂ P Q R (x ∷ xs) f h k = (f x h.0 k.0, All-map₂ P Q R xs f h.1 k.1)

abbrev Patches : ℕ → List ℕ → ℤ → ℕ → ℕ → List ℕ → Type 0
Patches rounds code list reg t xs =
    (code' : List ℕ) × (patchlistaux rounds code list (pos t) reg (pos t) ≡ ok code')
    × Patched xs code t code'

-- With more rounds than places, every jump of the list leads to the target then, and no other jump of
-- the code changes.
pub patchlistaux-Patched :
    (rounds : ℕ) (code : List ℕ) (list : ℤ) (reg t : ℕ) (xs : List ℕ)
    → length xs < rounds
    → length code ≤ 131071
    → AllWords code
    → t ≤ length code
    → ListOf code list xs
    → All (IsJump code) xs
    → All (λ (x : ℕ). t ≢ x) xs
    → (code' : List ℕ) × (patchlistaux rounds code list (pos t) reg (pos t) ≡ ok code')
      × Patched xs code t code'
unfolding patchlistaux
patchlistaux-Patched zero code list reg t xs r s w small h k ne = absurd (omega arith)
patchlistaux-Patched (suc rounds) code list reg t [] r s w small h k ne =
    subst (λ (z : ℤ). Patches (suc rounds) code z reg t []) (sym h)
      (code, refl, record { same_length = refl; jumps = tt; elsewhere = λ j out is_jump. refl })
patchlistaux-Patched (suc rounds) code list reg t (x ∷ xs) r s w small h k ne =
    let (code₁, runs₁, st) = step code x reg t s w small h.1 k.0 ne.0 in
    let out = count-head code list x xs h in
    let same =
      All-map₂ (λ (y : ℕ). x ≢ y) (IsJump code) (λ (y : ℕ). at code₁ y ≡ at code y) xs st.others
        (All-spare x xs out) k.1 in
    let jumps =
      All-map₂ (IsJump code) (λ (y : ℕ). at code₁ y ≡ at code y) (IsJump code₁) xs
        (λ y j e. ap get_opcode e ∙ j) k.1 same in
    let (code₂, runs₂, rest) =
      patchlistaux-Patched rounds code₁ (getjump code x) reg t xs (omega (arith, r))
        (omega (arith, s, st.same_length)) st.words (omega (arith, small, st.same_length))
        (ListOf-kept code code₁ (getjump code x) xs st.same_length same h.2) jumps ne.1 in
    subst (λ (z : ℤ). Patches (suc rounds) code z reg t (x ∷ xs)) (sym h.0)
      (
        code₂,
        one_step rounds code x reg t code₁ runs₁ ∙ runs₂,
        record {
          same_length = rest.same_length ∙ st.same_length;
          jumps = (getjump-same code₁ code₂ x (rest.elsewhere x out st.jump) ∙ st.link, rest.jumps);
          elsewhere = λ j gone is_jump.
              let (ne_x, gone_xs) = spare j x xs gone in
              let e = st.others j ne_x is_jump in
              rest.elsewhere j gone_xs (ap get_opcode e ∙ is_jump) ∙ e;
        },
      )

-- ===== src/Code/Landing.antt =====
-- Where the jumps lead that lua-5.1.5/src/lcode.c keeps to be patched to the next instruction.
use lua_5_1_source_guide.Base.{
  ℕ, zero, suc, ◌+◌, ◌≤◌, ◌<◌, ◌≡◌, ◌≢◌, refl, sym, ap, subst, ◌∙◌, arith, List, [], ◌∷◌, ◌++◌,
  length, length-append, All, All-map, All-append,
}
use lua_5_1_source_guide.Base.Int.{ℤ, pos}
use lua_5_1_source_guide.Opcodes.{no_reg}
use lua_5_1_source_guide.Jumps.{no_jump, at, getjump, patchlistaux, concat}
use lua_5_1_source_guide.Jumps.Words.{AllWords, RewritesWith, concat-RewritesWith}
use lua_5_1_source_guide.Jumps.Chains.{ListOf, Apart, length-bound}
use lua_5_1_source_guide.Jumps.Joined.{getjump-same, Relinked, concat-Joined}
use lua_5_1_source_guide.Jumps.Patched.{IsJump, Patched, All-map₂, patchlistaux-Patched}
use lua_5_1_source_guide.Code.State.{
  Outcome, ok, err, stuck, FuncState, Gen, ◌>>=◌, ◌>>◌, get, modify, on_code,
}
use lua_5_1_source_guide.Code.Emit.{
  pc_of, max_int, only_code, patch_list_aux, luak_concat, getlabel, set_jpc, dischargejpc, put_code,
  luak_code, patchtohere,
}

bind_runs :
    {A B : Type 0} (m : Gen A) (f : A → Gen B) (fs : FuncState) {fs' : FuncState} {a : A}
    → m fs ≡ ok (a, fs')
    → (m >>= f) fs ≡ f a fs'
unfolding ◌>>=◌
bind_runs {A = A} {B = B} m f fs e =
    ap
      (λ (r : Outcome (A × FuncState)). elim r as (λ _. Outcome (B × FuncState)) [
        | ok (a, fs') ↦ f a fs'
        | err e ↦ err e
        | stuck ↦ stuck
      ])
      e

then_runs :
    {A B : Type 0} (m : Gen A) (k : Gen B) (fs : FuncState) {fs' : FuncState} {a : A}
    → m fs ≡ ok (a, fs')
    → (m >> k) fs ≡ k fs'
unfolding ◌>>◌
then_runs m k fs e = bind_runs m (λ _. k) fs e

on_code-runs :
    {A : Type 0} (f : List ℕ → Outcome (A × List ℕ)) (fs : FuncState) {a : A} {code : List ℕ}
    → f fs.code ≡ ok (a, code)
    → on_code f fs ≡ ok (a, record fs { code = code })
unfolding on_code
on_code-runs {A = A} f fs e =
    ap
      (λ (r : Outcome (A × List ℕ)). elim r as (λ _. Outcome (A × FuncState)) [
        | ok (a, code) ↦ ok (a, record fs { code = code })
        | err e ↦ err e
        | stuck ↦ stuck
      ])
      e

discharged :
    (fs : FuncState) (code' : List ℕ)
    → patchlistaux (suc (length fs.code)) fs.code fs.jpc (pos (pc_of fs)) no_reg (pos (pc_of fs))
      ≡ ok code'
    → dischargejpc fs ≡ ok (tt, record fs { code = code'; jpc = no_jump })
unfolding dischargejpc ◌>>=◌ get set_jpc modify patch_list_aux
discharged fs code' runs = then_runs _ _ fs (on_code-runs _ fs (ap only_code runs))

-- A place of a list lies before the end of the code.
before_end :
    (code : List ℕ) (list : ℤ) (xs : List ℕ)
    → ListOf code list xs
    → All (λ (x : ℕ). length code ≢ x) xs
before_end code list [] h = tt
before_end code list (x ∷ xs) h = (omega (arith, h.1), before_end code (getjump code x) xs h.2)

-- The pending jumps of the state, at the places `xs`
pub record Pending (fs : FuncState) (xs : List ℕ) : Type 0 where
  pub short : length fs.code ≤ 131071
  pub words : AllWords fs.code
  pub list : ListOf fs.code fs.jpc xs
  pub jumps : All (IsJump fs.code) xs

discharge-Pending :
    (fs : FuncState) (xs : List ℕ)
    → Pending fs xs
    → (code' : List ℕ) × (dischargejpc fs ≡ ok (tt, record fs { code = code'; jpc = no_jump }))
      × Patched xs fs.code (pc_of fs) code'
discharge-Pending fs xs p =
    let (code', runs, patched) =
      patchlistaux-Patched (suc (length fs.code)) fs.code fs.jpc no_reg (pc_of fs) xs
        (omega (arith, length-bound fs.code fs.jpc xs p.list)) p.short p.words (omega arith) p.list
        p.jumps (before_end fs.code fs.jpc xs p.list) in
    (code', discharged fs code' runs, patched)

emitted :
    (fs : FuncState) (i line : ℕ)
    → pc_of fs < max_int
    → put_code i line fs
      ≡ ok (pc_of fs, record fs { code = fs.code ++ i ∷ []; lineinfo = fs.lineinfo ++ line ∷ [] })
unfolding put_code
emitted fs i line h = ground (arith, h)

at-append : (code more : List ℕ) (j : ℕ) → j < length code → at (code ++ more) j ≡ at code j
at-append [] more j h = absurd (omega arith)
at-append (x ∷ code) more zero h = refl
at-append (x ∷ code) more (suc j) h = at-append code more j (omega arith)

at_end : (code more : List ℕ) (i : ℕ) → at (code ++ i ∷ more) (length code) ≡ i
at_end [] more i = refl
at_end (x ∷ code) more i = at_end code more i

inside :
    (code : List ℕ) (list : ℤ) (xs : List ℕ)
    → ListOf code list xs
    → All (λ (x : ℕ). x < length code) xs
inside code list [] h = tt
inside code list (x ∷ xs) h = (h.1, inside code (getjump code x) xs h.2)

still_there :
    (code more : List ℕ) (t : ℕ) (xs : List ℕ)
    → All (λ (x : ℕ). x < length code) xs
    → All (λ (x : ℕ). getjump code x ≡ pos t) xs
    → All (λ (x : ℕ). getjump (code ++ more) x ≡ pos t) xs
still_there code more t xs h k =
    All-map₂ (λ (x : ℕ). x < length code) (λ (x : ℕ). getjump code x ≡ pos t)
      (λ (x : ℕ). getjump (code ++ more) x ≡ pos t) xs
      (λ x small e. getjump-same code (code ++ more) x (at-append code more x small) ∙ e) h k

-- What `luaK_code` leaves: the jumps lead to the instruction, and none is pending.
pub record Landed (fs : FuncState) (xs : List ℕ) (i : ℕ) (fs' : FuncState) : Type 0 where
  pub lands : All (λ (x : ℕ). getjump fs'.code x ≡ pos (pc_of fs)) xs
  pub instruction : at fs'.code (pc_of fs) ≡ i
  pub longer : pc_of fs' ≡ pc_of fs + 1
  pub none_pending : fs'.jpc ≡ no_jump

landed :
    (fs : FuncState) (xs : List ℕ) (i line : ℕ)
    → Pending fs xs
    → (fs' : FuncState) × (luak_code i line fs ≡ ok (pc_of fs, fs')) × Landed fs xs i fs'
unfolding luak_code
landed fs xs i line p =
    let (code', runs, patched) = discharge-Pending fs xs p in
    let n = patched.same_length in
    (
      record fs { code = code' ++ i ∷ []; lineinfo = fs.lineinfo ++ line ∷ []; jpc = no_jump },
      then_runs _ _ fs runs
          ∙ emitted (record fs { code = code'; jpc = no_jump }) i line (omega (arith, n, p.short))
          ∙ ap
              (λ (k : ℕ). ok (
                k,
                record fs {
                  code = code' ++ i ∷ [];
                  lineinfo = fs.lineinfo ++ line ∷ [];
                  jpc = no_jump;
                },
              ))
              n,
      record {
        lands =
            still_there code' (i ∷ []) (pc_of fs) xs
              (subst (λ (k : ℕ). All (λ (x : ℕ). x < k) xs) (sym n)
                (inside fs.code fs.jpc xs p.list))
              patched.jumps;
        instruction = subst (λ (k : ℕ). at (code' ++ i ∷ []) k ≡ i) n (at_end code' [] i);
        longer = length-append code' (i ∷ []) ∙ ap (λ (k : ℕ). k + 1) n;
        none_pending = refl;
      },
    )

still_jump :
    (code code' xs zs : List ℕ)
    → Relinked xs code code'
    → All (IsJump code) zs
    → All (IsJump code') zs
still_jump code code' xs zs r h = All-map (IsJump code) (IsJump code') zs (λ x j. r.opcodes x ∙ j) h

-- `patchtohere` makes the jumps of a list pending.
joined_here :
    (fs : FuncState) (list : ℤ) (xs ys : List ℕ)
    → Pending fs xs
    → ListOf fs.code list ys
    → All (IsJump fs.code) ys
    → Apart xs ys
    → (fs' : FuncState) × (patchtohere list fs ≡ ok (tt, fs'))
      × Pending fs' (xs ++ ys)
      × (pc_of fs' ≡ pc_of fs)
unfolding patchtohere getlabel ◌>>=◌ ◌>>◌ get modify set_jpc luak_concat
joined_here fs list xs ys p h jumps apart =
    let (r, runs, joined) =
      concat-Joined fs.code fs.jpc list xs ys p.short p.words p.list h apart in
    let marked : FuncState = record fs { lasttarget = pos (pc_of fs) } in
    let n = joined.relinked.same_length in
    let still = still_jump fs.code r.1 xs in
    (
      record marked { code = r.1; jpc = r.0 },
      bind_runs (luak_concat fs.jpc list) set_jpc marked
          (on_code-runs (λ code. concat (suc (length code)) code fs.jpc list) marked runs),
      record {
        short = omega (arith, n, p.short);
        words =
            (subst (RewritesWith fs.code) runs
              (concat-RewritesWith (suc (length fs.code)) fs.code fs.jpc list p.words)).1;
        list = joined.list;
        jumps =
            All-append (IsJump r.1) xs ys (still xs joined.relinked p.jumps)
              (still ys joined.relinked jumps);
      },
      n,
    )

-- In a code of at most 131071 words, where the pending jumps are at the places `xs` and the jumps of
-- `list` at other places `ys`, `luaK_patchtohere` of the list followed by `luaK_code` of any instruction
-- succeeds. Every one of the jumps then leads to that instruction, which is the last, and none is pending.
pub luak_code-patchtohere :
    (fs : FuncState) (list : ℤ) (xs ys : List ℕ) (i line : ℕ)
    → Pending fs xs
    → ListOf fs.code list ys
    → All (IsJump fs.code) ys
    → Apart xs ys
    → (fs' : FuncState) × ((patchtohere list >> luak_code i line) fs ≡ ok (pc_of fs, fs'))
      × Landed fs (xs ++ ys) i fs'
luak_code-patchtohere fs list xs ys i line p h jumps apart =
    let (fs₁, runs₁, p₁, n) = joined_here fs list xs ys p h jumps apart in
    let (fs₂, runs₂, l) = landed fs₁ (xs ++ ys) i line p₁ in
    (
      fs₂,
      then_runs _ _ fs runs₁ ∙ runs₂ ∙ ap (λ (k : ℕ). ok (k, fs₂)) n,
      record {
        lands = subst (λ (k : ℕ). All (λ (x : ℕ). getjump fs₂.code x ≡ pos k) (xs ++ ys)) n l.lands;
        instruction = subst (λ (k : ℕ). at fs₂.code k ≡ i) n l.instruction;
        longer = l.longer ∙ ap (λ (k : ℕ). k + 1) n;
        none_pending = l.none_pending;
      },
    )

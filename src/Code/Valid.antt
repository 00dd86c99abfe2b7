-- ===== src/Code/Valid.antt =====
-- The invariant of the state of lua-5.1.5/src/lcode.c, and what it takes to keep it.
use lua_5_1_source_guide.Base.{
  ℕ, ◌≤◌, ◌<◌, ◌≡◌, arith, List, Bool, true, false, if◌then◌else◌, length, All,
}
use lua_5_1_source_guide.Opcodes.{max_arg_bx}
use lua_5_1_source_guide.Jumps.Words.{AllWords, RewritesWith}
use lua_5_1_source_guide.Code.State.{
  Outcome, ok, err, stuck, CodeError, Key, FuncState, Gen, ◌>>=◌, ◌>>◌, return, fail, get, assert,
  when◌then◌else◌, modify, on_code,
}
use lua_5_1_source_guide.Code.Emit.{max_int, max_stack}

-- Every instruction is a 32-bit word and has a line; there are no more than `MAX_INT` of them. The
-- free register lies within the stack of the function, which is smaller than `MAXSTACK`. Every index
-- of a constant, also in the table that finds them again, fits a Bx field. The stack has at least `low`
-- registers: it never shrinks.
pub record IsValid (low : ℕ) (fs : FuncState) : Type 0 where
  pub words : AllWords fs.code
  pub lines : length fs.lineinfo ≡ length fs.code
  pub size : length fs.code ≤ max_int
  pub registers : fs.freereg ≤ fs.max_stack_size
  pub stack : fs.max_stack_size < max_stack
  pub bottom : low ≤ fs.max_stack_size
  pub constants : length fs.k ≤ max_arg_bx
  pub table : All (λ (e : Key × ℕ). e.1 < length fs.k) fs.h

-- What an operation leaves, if it ends in no error
abbrev pub Kept : {A : Type 0} → ℕ → Outcome (A × FuncState) → Type 0
Kept low (ok (a, fs)) = IsValid low fs
Kept low (err e) = Unit
Kept low stuck = Unit

pub record Keeps {A : Type 0} (m : Gen A) : Type 0 where
  pub apply : (low : ℕ) (fs : FuncState) → IsValid low fs → Kept low (m fs)

pub bind-Kept :
    {A B : Type 0} (low : ℕ) (r : Outcome (A × FuncState)) (f : A → Gen B)
    → Kept low r
    → ((a : A) (fs : FuncState) → IsValid low fs → Kept low (f a fs))
    → Kept low (elim r as (λ _. Outcome (B × FuncState)) [
      | ok (a, fs') ↦ f a fs'
      | err e ↦ err e
      | stuck ↦ stuck
    ])
bind-Kept low (ok (a, fs)) f v k = k a fs v
bind-Kept low (err e) f v k = tt
bind-Kept low stuck f v k = tt

pub Keeps-bind :
    {A B : Type 0} {m : Gen A} {f : A → Gen B} → Keeps m → ((a : A) → Keeps (f a)) → Keeps (m >>= f)
unfolding ◌>>=◌
Keeps-bind {m = m} {f = f} k h = record {
  apply =
      λ low fs v. bind-Kept low (m fs) f (k.apply low fs v) (λ a fs' v'. (h a).apply low fs' v');
}

pub Keeps-then : {A B : Type 0} {m : Gen A} {k : Gen B} → Keeps m → Keeps k → Keeps (m >> k)
unfolding ◌>>◌
Keeps-then h k = Keeps-bind h (λ _. k)

pub Keeps-return : {A : Type 0} (a : A) → Keeps (return a)
unfolding return
Keeps-return a = record { apply = λ low fs v. v }

pub Keeps-fail : {A : Type 0} (e : CodeError) → Keeps (fail {A = A} e)
unfolding fail
Keeps-fail e = record { apply = λ low fs v. tt }

pub Keeps-get : {A : Type 0} (f : FuncState → A) → Keeps (get f)
unfolding get
Keeps-get f = record { apply = λ low fs v. v }

pub Keeps-assert : (b : Bool) → Keeps (assert b)
unfolding assert
Keeps-assert true = record { apply = λ low fs v. v }
Keeps-assert false = record { apply = λ low fs v. tt }

pub Keeps-when :
    {A : Type 0} (b : Bool) {x y : Gen A} → Keeps x → Keeps y → Keeps (when b then x else y)
unfolding when◌then◌else◌
Keeps-when true h k = h
Keeps-when false h k = k

pub Keeps-modify :
    (f : FuncState → FuncState)
    → ((low : ℕ) (fs : FuncState) → IsValid low fs → IsValid low (f fs))
    → Keeps (modify f)
unfolding modify
Keeps-modify f h = record { apply = h }

rewritten :
    {A : Type 0} (low : ℕ) (fs : FuncState) (r : Outcome (A × List ℕ))
    → IsValid low fs
    → RewritesWith fs.code r
    → Kept low (elim r as (λ _. Outcome (A × FuncState)) [
      | ok (a, code) ↦ ok (a, record fs { code = code })
      | err e ↦ err e
      | stuck ↦ stuck
    ])
rewritten low fs (ok (a, code)) v h = record {
  words = h.1;
  lines = omega (arith, v.lines, h.0);
  size = omega (arith, v.size, h.0);
  registers = v.registers;
  stack = v.stack;
  bottom = v.bottom;
  constants = v.constants;
  table = v.table;
}
rewritten low fs (err e) v h = tt
rewritten low fs stuck v h = tt

pub Keeps-on_code :
    {A : Type 0} (f : List ℕ → Outcome (A × List ℕ))
    → ((code : List ℕ) → AllWords code → RewritesWith code (f code))
    → Keeps (on_code f)
unfolding on_code
Keeps-on_code f h = record {
  apply = λ low fs v. rewritten low fs (f fs.code) v (h fs.code v.words);
}

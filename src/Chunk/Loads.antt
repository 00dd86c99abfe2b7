-- ===== src/Chunk/Loads.antt =====
-- The functions of lua-5.1.5/src/lundump.c read back the pieces of the format.
use lua_5_1_source_guide.Base.{
  ℕ, suc, ◌+◌, ◌*◌, ◌^◌, ◌<◌, ◌≡◌, refl, sym, ap, subst, ◌∙◌, arith, List, [], ◌∷◌, ◌++◌, Option,
  none, some, Bool, true, false, not, ◌==◌, length, take, drop, All, length-append,
  take-length_append, drop-length_append, append_assoc, append-nil,
}
use lua_5_1_source_guide.Zio.Stream.{Delivers, read-Delivers}
use lua_5_1_source_guide.Chunk.Proto.{Str, Constant, LocVar}
use lua_5_1_source_guide.Chunk.Bytes.{
  le_bytes, of_le_bytes, word_bytes, of_word_bytes, length-le_bytes, length-word_bytes,
  of_le_bytes-le_bytes, of_word_bytes-word_bytes,
}
use lua_5_1_source_guide.Chunk.Fits.{IntFits, StrFits, ConstantFits, LocVarFits, WordsFit}
use lua_5_1_source_guide.Chunk.Undump.{
  Load, LoadState, LoadError, ok, ◌>>=◌, return, error_if, load_block, load_char, load_int,
  load_number, load_text, load_string, load_vector, load_tagged, load_constant, load_locvar,
  load_each, load_list,
}
use lua_5_1_source_guide.Chunk.Format.{
  int_form, byte_form, vector_form, string_form, constant_form, locvar_form, each, list_form,
}

first : (b rest : List ℕ) (size : ℕ) → length b ≡ size → take size (b ++ rest) ≡ b
first b rest size e = ap (λ (n : ℕ). take n (b ++ rest)) (sym e) ∙ take-length_append b rest

after : (b rest : List ℕ) (size : ℕ) → length b ≡ size → drop size (b ++ rest) ≡ rest
after b rest size e = ap (λ (n : ℕ). drop n (b ++ rest)) (sym e) ∙ drop-length_append b rest

module _ {S : Type 0} (reader : S → List ℕ × S) where
  -- After a load that gives `a`: the stream goes on with `rest`, and the call depth is `k`.
  pub record Loaded {A : Type 0} (k : ℕ) (m : Load S A) (a : A) (st : LoadState S) (rest : List ℕ)
      : Type 0 where
    pub last : LoadState S
    pub runs : m st ≡ ok (a, last)
    pub stream : Delivers reader last.stream rest
    pub calls : last.n_ccalls ≡ k

  -- At call depth `n`, where the stream goes on with the bytes `b`, the load takes them, gives `a` and
  -- leaves the depth `k`.
  pub record Loads {A : Type 0} (n k : ℕ) (m : Load S A) (a : A) (b : List ℕ) : Type 0 where
    pub apply :
        (st : LoadState S) (rest : List ℕ)
        → st.n_ccalls ≡ n
        → Delivers reader st.stream (b ++ rest)
        → Loaded k m a st rest

  pub bind :
      {A B : Type 0} {n k l : ℕ} {m : Load S A} {a : A} {c : B} {x y : List ℕ} (f : A → Load S B)
      → Loads n k m a x
      → Loads k l (f a) c y
      → Loads n l (m >>= f) c (x ++ y)
  unfolding ◌>>=◌
  bind {m = m} {a = a} {x = x} {y = y} f p q = record {
    apply = λ st rest e d.
        let r =
          p.apply st (y ++ rest) e (subst (Delivers reader st.stream) (append_assoc x y rest) d) in
        let t = q.apply r.last rest r.calls r.stream in
        record {
          last = t.last;
          runs = rw (r.runs, ◌>>=◌) t.runs;
          stream = t.stream;
          calls = t.calls;
        };
  }

  pub pure : {A : Type 0} {n : ℕ} (a : A) → Loads n n (return a) a []
  unfolding return
  pure a = record {
    apply = λ st rest e d. record { last = st; runs = refl; stream = d; calls = e };
  }

  -- The bytes of a load, written another way
  pub of_bytes :
      {A : Type 0} {n k : ℕ} {m : Load S A} {a : A} {x y : List ℕ}
      → x ≡ y
      → Loads n k m a x
      → Loads n k m a y
  of_bytes {n = n} {k = k} {m = m} {a = a} e p = subst (Loads n k m a) e p

  -- A load and a last step that reads nothing
  pub then_return :
      {A B : Type 0} {n : ℕ} {m : Load S A} {a : A} {x : List ℕ} (f : A → B)
      → Loads n n m a x
      → Loads n n (m >>= λ a. return (f a)) (f a) x
  then_return {a = a} {x = x} f p = of_bytes (append-nil x) (bind _ p (pure (f a)))

  pub block :
      {n : ℕ} (size : ℕ) (b : List ℕ) → length b ≡ size → Loads n n (load_block reader size) b b
  unfolding load_block
  block size b e = record {
    apply = λ st rest h d.
        let (last, runs, more) =
          read-Delivers reader st.stream size (b ++ rest) d (omega (arith, length-append b rest)) in
        record {
          last = record st { stream = last };
          runs = rw (runs, load_block) (ground (arith, first b rest size e));
          stream = subst (Delivers reader last) (after b rest size e) more;
          calls = h;
        };
  }

  pub number : {n : ℕ} (x : ℕ) → x < 256 ^ 8 → Loads n n (load_number reader) x (le_bytes 8 x)
  unfolding load_number
  number {n} x h =
      subst (λ (y : ℕ). Loads n n (load_number reader) y (le_bytes 8 x))
        (of_le_bytes-le_bytes 8 x h)
        (then_return of_le_bytes (block 8 (le_bytes 8 x) (length-le_bytes 8 x)))

  pub char : {n : ℕ} (x : ℕ) → x < 256 → Loads n n (load_char reader) x (byte_form x)
  unfolding load_char of_le_bytes
  char {n} x h =
      subst (λ (y : ℕ). Loads n n (load_char reader) y (byte_form x)) (omega arith)
        (then_return of_le_bytes (block 1 (byte_form x) refl))

  pub guard : {n : ℕ} (b : Bool) (e : LoadError) → b ≡ false → Loads n n (error_if b e) tt []
  unfolding error_if
  guard b e h = record {
    apply = λ st rest c d. record { last = st; runs = rw h; stream = d; calls = c };
  }

  pub int : {n : ℕ} (x : ℕ) → IntFits x → Loads n n (load_int reader) x (int_form x)
  unfolding load_int
  int {n} x h =
      let v = of_le_bytes-le_bytes 4 x (omega arith) in
      subst (λ (y : ℕ). Loads n n (load_int reader) y (int_form x)) v
        (of_bytes (append-nil (int_form x)) (
          bind _ (block 4 (int_form x) (length-le_bytes 4 x))
            (bind _ (guard _ _ (rw v (ground arith))) (pure (of_le_bytes (int_form x))))))

  pub vector :
      {n : ℕ} (xs : List ℕ) → WordsFit xs → Loads n n (load_vector reader) xs (vector_form xs)
  unfolding load_vector
  vector {n} xs h =
      subst (λ (ys : List ℕ). Loads n n (load_vector reader) ys (vector_form xs))
        (of_word_bytes-word_bytes 4 xs h.1)
        (bind _ (int (length xs) h.0) (
          then_return (of_word_bytes 4 (length xs))
            (block (length xs * 4) (word_bytes 4 xs) (length-word_bytes 4 xs))))

  text : {n : ℕ} (s : Str) → Loads n n (load_text reader (suc (length s))) (some s) (s ++ 0 ∷ [])
  unfolding load_text
  text {n} s =
      subst (λ (t : Str). Loads n n (load_text reader (suc (length s))) (some t) (s ++ 0 ∷ []))
        (take-length_append s (0 ∷ []))
        (then_return (λ t. some (take (length s) t))
          (block (suc (length s)) (s ++ 0 ∷ []) (omega (arith, length-append s (0 ∷ [])))))

  null : {n : ℕ} → Loads n n (load_text reader 0) none []
  unfolding load_text
  null = pure none

  -- The size, and what `LoadString` does with it
  sized :
      {n : ℕ} (x size : ℕ) (s : Option Str) (b : List ℕ)
      → x ≡ size
      → x < 256 ^ 8
      → Loads n n (load_text reader size) s b
      → Loads n n (load_string reader) s (le_bytes 8 x ++ b)
  unfolding load_string
  sized {n} x size s b e h p =
      bind (λ bytes. load_text reader (of_le_bytes bytes))
        (block 8 (le_bytes 8 x) (length-le_bytes 8 x))
        (subst (λ (k : ℕ). Loads n n (load_text reader k) s b)
          (sym (of_le_bytes-le_bytes 8 x h ∙ e)) p)

  pub string :
      {n : ℕ} (s : Option Str) → StrFits s → Loads n n (load_string reader) s (string_form s)
  string none h = of_bytes (append-nil (le_bytes 8 0)) (sized 0 0 none [] refl (omega arith) null)
  string (some s) h = sized (length s + 1) (suc (length s)) (some s) _ (omega arith) h (text s)

  pub constant :
      {n : ℕ} (o : Constant) → ConstantFits o → Loads n n (load_constant reader) o (constant_form o)
  unfolding load_constant load_tagged
  constant Constant.nil h = bind (load_tagged reader) (char 0 (omega arith)) (pure Constant.nil)
  constant (Constant.boolean true) h =
      bind (load_tagged reader) (char 1 (omega arith))
        (then_return (λ b. Constant.boolean (not (b == 0))) (char 1 (omega arith)))
  constant (Constant.boolean false) h =
      bind (load_tagged reader) (char 1 (omega arith))
        (then_return (λ b. Constant.boolean (not (b == 0))) (char 0 (omega arith)))
  constant (Constant.number x) h =
      bind (load_tagged reader) (char 3 (omega arith)) (then_return Constant.number (number x h))
  constant (Constant.string s) h =
      bind (load_tagged reader) (char 4 (omega arith)) (then_return Constant.string (string s h))

  pub locvar :
      {n : ℕ} (v : LocVar) → LocVarFits v → Loads n n (load_locvar reader) v (locvar_form v)
  unfolding load_locvar
  locvar v h =
      bind _ (string v.varname h.0) (bind _ (int v.startpc h.1) (then_return _ (int v.endpc h.2)))

  module _ {A : Type 0} {item : Load S A} (form : A → List ℕ) {n : ℕ} (Fits : A → Type 0)
      (load_item : (a : A) → Fits a → Loads n n item a (form a)) where
    items :
        (xs : List A)
        → All Fits xs
        → Loads n n (load_each reader item (length xs)) xs (each form xs)
    unfolding load_each
    items [] h = pure []
    items (x ∷ xs) h = bind _ (load_item x h.0) (then_return _ (items xs h.1))

    pub list :
        (xs : List A)
        → IntFits (length xs)
        → All Fits xs
        → Loads n n (load_list reader item) xs (list_form form xs)
    unfolding load_list
    list xs l h = bind _ (int (length xs) l) (items xs h)

-- ===== src/Chunk/RoundTrip.antt =====
-- `luaU_undump` (lua-5.1.5/src/lundump.c) after `luaU_dump` (ldump.c).
use lua_5_1_source_guide.Base.{
  ℕ, zero, suc, ◌+◌, ◌-◌, ◌%◌, ◌^◌, ◌≤◌, ◌<◌, ◌≡◌, refl, ap, subst, ◌∙◌, arith, List, [], ◌++◌,
  Option, none, Bool, true, false, not, if◌then◌else◌, append-nil, inl, inr,
}
use lua_5_1_source_guide.Zio.Stream.{Delivers}
use lua_5_1_source_guide.Chunk.Proto.{
  Str, Head, DebugInfo, Proto, Protos, proto, none_left, next, count, depth, depth_all,
}
use lua_5_1_source_guide.Chunk.Header.{header, bytes_eq_self}
use lua_5_1_source_guide.Chunk.Undump.{
  LoadState, LoadError, ok, error_if, load_header, load_head, load_debug, load_functions,
  load_function, enter, leave, undump,
}
use lua_5_1_source_guide.Chunk.Fits.{
  StrFits, ConstantFits, LocVarFits, HeadFits, DebugFits, ProtoFits, ProtosFit,
}
use lua_5_1_source_guide.Chunk.Format.{
  string_form, constant_form, locvar_form, debug_form, kept, head_form, function_form,
  functions_form, chunk_form,
}
use lua_5_1_source_guide.Chunk.Dump.{dump}
use lua_5_1_source_guide.Chunk.Writes.{Appends, written-dump}
use lua_5_1_source_guide.Chunk.Loads.{
  Loads, Loaded, bind, pure, of_bytes, then_return, block, char, int, vector, string, constant,
  locvar, list, guard,
}
use lua_5_1_source_guide.Chunk.Loaded.{
  loaded, loaded_all, IsNamed, AllNamed, AllNamedAll, Checks, ChecksAll, anonymous, Related,
  source_back, name_form-StrFits,
}

module _ {S : Type 0} (reader : S → List ℕ × S) (check_code : Proto → Bool) where
  head :
      {n : ℕ} (strip : Bool) (q p : Option Str) (f : Head)
      → HeadFits f
      → IsNamed f.source
      → Related strip q p
      → Loads reader n n
          (load_head reader p)
          (record f { source = if strip then p else f.source })
          (head_form strip q f)
  unfolding load_head
  head {n} strip q p f h named r =
      let e = source_back strip q p f.source named r in
      subst
        (λ (s : Option Str).
          Loads reader n n (load_head reader p) (record f { source = s }) (head_form strip q f))
        e
        (bind reader _ (string reader _ (name_form-StrFits strip q f.source h.source)) (
          bind reader _ (int reader f.line_defined h.line_defined) (
            bind reader _ (int reader f.last_line_defined h.last_line_defined) (
              bind reader _ (char reader f.nups h.nups) (
                bind reader _ (char reader f.numparams h.numparams) (
                  bind reader _ (char reader f.is_vararg h.is_vararg) (
                    bind reader _ (char reader f.max_stack_size h.max_stack_size) (
                      bind reader _ (vector reader f.code h.code) (
                        then_return reader _ (
                          list reader constant_form ConstantFits (constant reader) f.k h.k_length
                            h.k))))))))))

  debug :
      {n : ℕ} (strip : Bool) (d : DebugInfo)
      → DebugFits d
      → Loads reader n n (load_debug reader) (kept strip d) (debug_form (kept strip d))
  unfolding load_debug
  debug true d h = bind reader _ (vector reader [] (omega arith)) (
      bind reader _ (list reader locvar_form LocVarFits (locvar reader) [] (omega arith) tt) (
        then_return reader _ (list reader string_form StrFits (string reader) [] (omega arith) tt)))
  debug false d h = bind reader _ (vector reader d.lineinfo h.lineinfo) (
      bind reader _
        (list reader locvar_form LocVarFits (locvar reader) d.locvars h.locvars_length h.locvars)
        (then_return reader _ (
          list reader string_form StrFits (string reader) d.upvalues h.upvalues_length h.upvalues)))

  enters : (n : ℕ) → n < 200 → Loads reader n (suc n) (enter reader) tt []
  unfolding enter
  enters n h = record {
    apply = λ st rest e d. record {
      last = record st { n_ccalls = st.n_ccalls + 1 };
      runs = ground arith;
      stream = d;
      calls = omega arith;
    };
  }

  leaves : (n : ℕ) → n < 200 → Loads reader (suc n) n (leave reader) tt []
  unfolding leave
  leaves n h = record {
    apply = λ st rest e d. record {
      last = record st { n_ccalls = (st.n_ccalls + 2 ^ 16 - 1) % 2 ^ 16 };
      runs = refl;
      stream = d;
      calls = omega arith;
    };
  }

  passes :
      {n : ℕ} (b : Bool) (e : LoadError) → b ≡ true → Loads reader n n (error_if (not b) e) tt []
  passes b e h = guard reader (not b) e (ap not h)

  inside : (strip : Bool) (p s : Option Str) → Related strip s (if strip then p else s)
  inside true p s = tt
  inside false p s = inl refl

  -- What is asked of a function that is loaded at call depth `n` with `calls` nested calls at hand
  record Ready (calls n depth : ℕ) : Type 0 where
    enough : depth ≤ calls
    shallow : n + depth ≤ 200

  mutual
    unfolding load_function load_functions function_form loaded depth count

    function :
        (strip : Bool) (f : Proto) (calls n : ℕ) (q p : Option Str)
        → Ready calls n (depth f)
        → ProtoFits f
        → AllNamed f
        → Related strip q p
        → Checks check_code (loaded strip p f)
        → Loads reader n n
            (load_function reader check_code calls p)
            (loaded strip p f)
            (function_form strip q f)
    function strip (proto f fs d) zero n q p ready fits named r checked =
        absurd (omega (arith, ready.enough))
    function strip (proto f fs d) (suc calls) n q p ready fits named r checked =
        let source = if strip then p else f.source in
        bind reader _ (enters n (omega (arith, ready.shallow))) (
          bind reader _ (head strip q p f fits.0 named.0 r) (
            bind reader _ (int reader (count fs) fits.1) (
              bind reader _
                (functions strip fs calls (suc n) f.source source
                  (record {
                    enough = omega (arith, ready.enough);
                    shallow = omega (arith, ready.shallow);
                  })
                  fits.2 named.1 (inside strip p f.source) checked.1)
                (of_bytes reader (append-nil (debug_form (kept strip d))) (
                  bind reader _ (debug strip d fits.3) (
                    bind reader _ (passes _ _ checked.0) (
                      bind reader _ (leaves n (omega (arith, ready.shallow))) (pure reader _))))))))

    functions :
        (strip : Bool) (fs : Protos) (calls n : ℕ) (q p : Option Str)
        → Ready calls n (depth_all fs)
        → ProtosFit fs
        → AllNamedAll fs
        → Related strip q p
        → ChecksAll check_code (loaded_all strip p fs)
        → Loads reader n n
            (load_functions reader (load_function reader check_code calls p) (count fs))
            (loaded_all strip p fs)
            (functions_form strip q fs)
    functions strip none_left calls n q p ready fits named r checked = pure reader none_left
    functions strip (next f fs) calls n q p ready fits named r checked =
        bind reader _
          (function strip f calls n q p
            (record {
              enough = omega (arith, ready.enough);
              shallow = omega (arith, ready.shallow);
            })
            fits.0 named.0 r checked.0)
          (then_return reader _ (
            functions strip fs calls n q p
              (record {
                enough = omega (arith, ready.enough);
                shallow = omega (arith, ready.shallow);
              })
              fits.1 named.1 r checked.1))

  chunk :
      (strip : Bool) (f : Proto) (n : ℕ)
      → n + depth f ≤ 200
      → ProtoFits f
      → AllNamed f
      → Checks check_code (loaded strip anonymous f)
      → Loads reader n n (undump reader check_code) (loaded strip anonymous f) (chunk_form strip f)
  unfolding undump load_header header
  chunk strip f n shallow fits named checked =
      bind reader _
        (of_bytes reader (append-nil header) (
          bind reader _ (block reader 12 header refl)
            (guard reader _ _ (ap not (bytes_eq_self header)))))
        (function strip f 201 n none anonymous (record { enough = omega arith; shallow = shallow })
          fits named (related strip) checked)
    where
      related : (strip : Bool) → Related strip none anonymous
      related true = tt
      related false = inr refl

mutual
  unfolding loaded

  loaded_whole : (p : Option Str) (f : Proto) → loaded false p f ≡ f
  loaded_whole p (proto f fs d) = rw (loaded_all_whole f.source fs)

  loaded_all_whole : (p : Option Str) (fs : Protos) → loaded_all false p fs ≡ fs
  loaded_all_whole p none_left = refl
  loaded_all_whole p (next f fs) = rw (loaded_whole p f, loaded_all_whole p fs)

module _ {S W : Type 0} (reader : S → List ℕ × S) (check_code : Proto → Bool)
    (writer : W → List ℕ → ℕ × W) (written : W → List ℕ) (appends : Appends writer written) where
  round_trip :
      (strip : Bool) (f : Proto) (w : W) (st : LoadState S) (rest : List ℕ)
      → written w ≡ []
      → Delivers reader st.stream (written (dump writer strip f w).written ++ rest)
      → st.n_ccalls + depth f ≤ 200
      → ProtoFits f
      → AllNamed f
      → Checks check_code (loaded strip anonymous f)
      → Loaded reader st.n_ccalls (undump reader check_code) (loaded strip anonymous f) st rest
  round_trip strip f w st rest empty d shallow fits named checked =
      let e : written (dump writer strip f w).written ≡ chunk_form strip f =
        (written-dump writer written appends strip f w).1
        ∙ ap (λ (l : List ℕ). l ++ chunk_form strip f) empty in
      (chunk reader check_code strip f st.n_ccalls shallow fits named checked).apply st rest refl
        (subst (λ (b : List ℕ). Delivers reader st.stream (b ++ rest)) e d)

  -- What `luaU_dump`, not stripping, gave to a writer that appends, read from a stream that delivers it
  -- in any blocks and goes on with `rest`, is loaded by `luaU_undump` as the same function, with the
  -- stream left at `rest` and the call depth as before: if every number fits its C type, every function
  -- has a source name, the nesting stays within `LUAI_MAXCCALLS` calls, and `luaG_checkcode` accepts
  -- the function and all nested ones.
  pub undump-dump :
      (f : Proto) (w : W) (st : LoadState S) (rest : List ℕ)
      → written w ≡ []
      → Delivers reader st.stream (written (dump writer false f w).written ++ rest)
      → st.n_ccalls + depth f ≤ 200
      → ProtoFits f
      → AllNamed f
      → Checks check_code f
      → (last : LoadState S) × (undump reader check_code st ≡ ok (f, last))
        × Delivers reader last.stream rest
        × (last.n_ccalls ≡ st.n_ccalls)
  undump-dump f w st rest empty d shallow fits named checked =
      let same = loaded_whole anonymous f in
      let r = round_trip false f w st rest empty d shallow fits named (rw same checked) in
      (r.last, r.runs ∙ ap (λ (g : Proto). ok (g, r.last)) same, r.stream, r.calls)

  -- What `luaU_dump`, stripping, gave to a writer that appends, read from a stream that delivers it in
  -- any blocks and goes on with `rest`, is loaded by `luaU_undump` with the code, the constants and the
  -- nested functions of the function, no line numbers and no names of variables, and the source "=?"
  -- throughout, the stream left at `rest` and the call depth as before: if every number fits its C
  -- type, every function has a source name, the nesting stays within `LUAI_MAXCCALLS` calls, and
  -- `luaG_checkcode` accepts what is loaded and all functions nested in it.
  pub undump-dump_stripped :
      (f : Proto) (w : W) (st : LoadState S) (rest : List ℕ)
      → written w ≡ []
      → Delivers reader st.stream (written (dump writer true f w).written ++ rest)
      → st.n_ccalls + depth f ≤ 200
      → ProtoFits f
      → AllNamed f
      → Checks check_code (loaded true anonymous f)
      → (last : LoadState S) × (undump reader check_code st ≡ ok (loaded true anonymous f, last))
        × Delivers reader last.stream rest
        × (last.n_ccalls ≡ st.n_ccalls)
  undump-dump_stripped f w st rest empty d shallow fits named checked =
      let r = round_trip true f w st rest empty d shallow fits named checked in
      (r.last, r.runs, r.stream, r.calls)

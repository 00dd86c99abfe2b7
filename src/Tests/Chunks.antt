-- ===== src/Tests/Chunks.antt =====
-- A function with a nested one, dumped by lua-5.1.5/src/ldump.c and loaded by lundump.c.
use lua_5_1_source_guide.Base.{
  ℕ, ◌+◌, ◌≤◌, ◌≡◌, ◌≢◌, refl, arith, List, [], ◌∷◌, ◌++◌, Option, some, Bool, true, false, take,
  drop, ap, get_or, length, ltb, if◌then◌else◌,
}
use lua_5_1_source_guide.Zio.Stream.{stop, block, Delivers}
use lua_5_1_source_guide.Tests.Streams.{Blocks, reader, from_blocks}
use lua_5_1_source_guide.Chunk.Proto.{
  Str, Constant, Head, DebugInfo, Proto, proto, none_left, next, count, depth,
}
use lua_5_1_source_guide.Chunk.Bytes.{le_bytes, word_bytes}
use lua_5_1_source_guide.Chunk.Header.{header, name_eq}
use lua_5_1_source_guide.Chunk.Dump.{
  dump, dump_function, dump_block, dump_char, dump_int, dump_number, dump_vector, dump_string,
  dump_constant, dump_each_constant, dump_each_locvar, dump_each_string, dump_debug, dump_head,
}
use lua_5_1_source_guide.Chunk.Format.{chunk_form}
use lua_5_1_source_guide.Chunk.Fits.{ProtoFits, HeadFits, DebugFits}
use lua_5_1_source_guide.Chunk.Undump.{LoadState, ok, err, bad_header, undump}
use lua_5_1_source_guide.Chunk.Writes.{written-dump}
use lua_5_1_source_guide.Chunk.Failure.{with_log, no_log, Stops, dump-Stops}
use lua_5_1_source_guide.Chunk.Nesting.{undump-depth}
use lua_5_1_source_guide.Chunk.Loaded.{AllNamed, Checks, loaded, anonymous}
use lua_5_1_source_guide.Chunk.RoundTrip.{undump-dump, undump-dump_stripped}
use lua_5_1_source_guide.Chunk.Refusals.{undump_bad_header}

-- A writer that keeps what it is given
abbrev keep : List ℕ → List ℕ → ℕ × List ℕ
keep w b = (0, w ++ b)

abbrev written : List ℕ → List ℕ
written w = w

abbrev accept : Proto → Bool
accept f = true

abbrev name : Option Str
name = some (b'@' ∷ b'f' ∷ [])

abbrev head : List ℕ → List Constant → Head
head words k = record {
  source = name;
  line_defined = 0;
  last_line_defined = 3;
  nups = 0;
  numparams = 1;
  is_vararg = 2;
  max_stack_size = 2;
  code = words;
  k = k;
}

abbrev debug : DebugInfo
debug = record {
  lineinfo = 1 ∷ [];
  locvars = record { varname = some (b'x' ∷ []); startpc = 0; endpc = 1 } ∷ [];
  upvalues = some (b'u' ∷ []) ∷ [];
}

-- One of each type
abbrev inner_constants : List Constant
inner_constants =
    Constant.nil
    ∷ Constant.boolean true
    ∷ Constant.number 0x3ff0000000000000
    ∷ Constant.string (some (b'k' ∷ []))
    ∷ []

abbrev inner : Proto
inner = proto (head (0x0080001e ∷ []) inner_constants) none_left debug

abbrev outer : Proto
outer = proto (head (0x24 ∷ 0x0080001e ∷ []) []) (next inner none_left) debug

outer_head_Fits : HeadFits (head (0x24 ∷ 0x0080001e ∷ []) [])
outer_head_Fits = record {
  source = omega arith;
  line_defined = omega arith;
  last_line_defined = omega arith;
  nups = omega arith;
  numparams = omega arith;
  is_vararg = omega arith;
  max_stack_size = omega arith;
  code = (omega arith, (omega arith, (omega arith, tt)));
  k_length = omega arith;
  k = tt;
}

inner_head_Fits : HeadFits (head (0x0080001e ∷ []) inner_constants)
inner_head_Fits = record {
  source = omega arith;
  line_defined = omega arith;
  last_line_defined = omega arith;
  nups = omega arith;
  numparams = omega arith;
  is_vararg = omega arith;
  max_stack_size = omega arith;
  code = (omega arith, (omega arith, tt));
  k_length = omega arith;
  k = (tt, (tt, (omega arith, (omega arith, tt))));
}

debug_Fits : DebugFits debug
debug_Fits = record {
  lineinfo = (omega arith, (omega arith, tt));
  locvars_length = omega arith;
  locvars = ((omega arith, omega arith, omega arith), tt);
  upvalues_length = omega arith;
  upvalues = (omega arith, tt);
}

outer-ProtoFits : ProtoFits outer
unfolding count
outer-ProtoFits =
    (outer_head_Fits, omega arith, ((inner_head_Fits, omega arith, tt, debug_Fits), tt), debug_Fits)

outer-AllNamed : AllNamed outer
outer-AllNamed = (λ e. cc, ((λ e. cc, tt), tt))

-- The dump, cut after 20 bytes, and a byte that follows it
abbrev cut : List ℕ → Blocks
cut bytes = take 20 bytes ∷ drop 20 bytes ∷ (7 ∷ []) ∷ []

abbrev start : Blocks → LoadState Blocks
start bs = record { stream = from_blocks bs; n_ccalls = 3 }

whole-Delivers :
    Delivers reader
      (from_blocks (cut (dump keep false outer []).written))
      ((dump keep false outer []).written ++ 7 ∷ [])
unfolding dump dump_function header dump_block dump_char dump_int dump_number dump_vector
    dump_string dump_constant dump_each_constant dump_each_locvar dump_each_string dump_debug
    dump_head le_bytes word_bytes count name_eq
whole-Delivers = record {
  later = (dump keep false outer []).written ++ 7 ∷ [];
  count = refl;
  feeds = block refl (block refl (block refl (stop refl refl) refl) refl) refl;
  parts = refl;
}

stripped-Delivers :
    Delivers reader
      (from_blocks (cut (dump keep true outer []).written))
      ((dump keep true outer []).written ++ 7 ∷ [])
unfolding dump dump_function header dump_block dump_char dump_int dump_number dump_vector
    dump_string dump_constant dump_each_constant dump_each_locvar dump_each_string dump_debug
    dump_head le_bytes word_bytes count name_eq
stripped-Delivers = record {
  later = (dump keep true outer []).written ++ 7 ∷ [];
  count = refl;
  feeds = block refl (block refl (block refl (stop refl refl) refl) refl) refl;
  parts = refl;
}

shallow : 3 + depth outer ≤ 200
unfolding depth
shallow = omega arith

undump-dump_example :
    (last : LoadState Blocks) × (undump reader accept
        (start (cut (dump keep false outer []).written))
      ≡ ok (outer, last))
    × Delivers reader last.stream (7 ∷ [])
    × (last.n_ccalls ≡ 3)
undump-dump_example =
    undump-dump reader accept keep written (λ w b. (refl, refl)) outer []
      (start (cut (dump keep false outer []).written)) (7 ∷ []) refl whole-Delivers shallow
      outer-ProtoFits outer-AllNamed (refl, ((refl, tt), tt))

accepted : Checks accept (loaded true anonymous outer)
unfolding loaded
accepted = (refl, ((refl, tt), tt))

undump-dump_stripped_example :
    (last : LoadState Blocks) × (undump reader accept
        (start (cut (dump keep true outer []).written))
      ≡ ok (loaded true anonymous outer, last))
    × Delivers reader last.stream (7 ∷ [])
    × (last.n_ccalls ≡ 3)
undump-dump_stripped_example =
    undump-dump_stripped reader accept keep written (λ w b. (refl, refl)) outer []
      (start (cut (dump keep true outer []).written)) (7 ∷ []) refl stripped-Delivers shallow
      outer-ProtoFits outer-AllNamed accepted

written-dump_example :
    ((dump keep false outer (9 ∷ [])).status ≡ 0)
    × ((dump keep false outer (9 ∷ [])).written ≡ (9 ∷ []) ++ chunk_form false outer)
written-dump_example = written-dump keep written (λ w b. (refl, refl)) false outer (9 ∷ [])

-- A writer that has room for 20 bytes
abbrev fails_full : List ℕ → List ℕ → ℕ × List ℕ
fails_full w b = if ltb (length (w ++ b)) 21 then (0, w ++ b) else (3, w)

dump-Stops_example :
    Stops (chunk_form false outer) (dump (with_log fails_full) false outer (no_log []))
dump-Stops_example = dump-Stops fails_full false outer []

-- The first twelve bytes of a chunk for another version
abbrev other_header : List ℕ
other_header = 27 ∷ b'L' ∷ b'u' ∷ b'a' ∷ 0x52 ∷ 0 ∷ 1 ∷ 4 ∷ 8 ∷ 4 ∷ 8 ∷ 0 ∷ []

other_header-Delivers : Delivers reader (from_blocks (other_header ∷ [])) (other_header ++ [])
other_header-Delivers = record {
  later = other_header;
  count = refl;
  feeds = block refl (stop refl refl) refl;
  parts = refl;
}

version_differs : ◌≢◌ {A = ℕ} 0x52 0x51
version_differs e = omega (arith, e)

differs : other_header ≢ header
unfolding header
differs e = version_differs (ap (λ (l : List ℕ). get_or l 4 0) e)

undump_bad_header_example : undump reader accept (start (other_header ∷ [])) ≡ err bad_header
undump_bad_header_example =
    undump_bad_header reader accept (start (other_header ∷ [])) other_header [] refl differs
      other_header-Delivers

undump-depth_example : (3 + depth outer ≤ 200) × (undump-dump_example.0.n_ccalls ≡ 3)
undump-depth_example =
    undump-depth reader accept (start (cut (dump keep false outer []).written))
      (outer, undump-dump_example.0) (omega arith) undump-dump_example.1

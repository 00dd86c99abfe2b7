-- ===== src/Chunk/Refusals.antt =====
-- Streams that `luaU_undump` (lua-5.1.5/src/lundump.c) refuses.
use lua_5_1_source_guide.Base.{
  ℕ, ◌<◌, ◌≡◌, ◌≢◌, refl, sym, arith, List, ◌++◌, Bool, false, length, Bool-cases, inl, inr,
}
use lua_5_1_source_guide.Zio.Stream.{Delivers, read_missing}
use lua_5_1_source_guide.Chunk.Proto.{Proto}
use lua_5_1_source_guide.Chunk.Header.{header, bytes_eq, bytes_eq→eq}
use lua_5_1_source_guide.Chunk.Undump.{
  LoadState, err, bad_header, unexpected_end, ◌>>=◌, error_if, load_header, load_block, undump,
}
use lua_5_1_source_guide.Chunk.Loads.{block}

other_header : (b : List ℕ) → b ≢ header → bytes_eq header b ≡ false
other_header b ne = elim (Bool-cases (bytes_eq header b)) [
  | inl same ↦ absurd (ne (sym (bytes_eq→eq header b same)))
  | inr other ↦ other
]

module _ {S : Type 0} (reader : S → List ℕ × S) (check_code : Proto → Bool) where
  -- A stream whose first twelve bytes are not the header of this machine is refused with "bad header".
  pub undump_bad_header :
      (st : LoadState S) (b rest : List ℕ)
      → length b ≡ 12
      → b ≢ header
      → Delivers reader st.stream (b ++ rest)
      → undump reader check_code st ≡ err bad_header
  unfolding undump load_header ◌>>=◌ error_if
  undump_bad_header st b rest l ne d =
      let r = (block reader {n = st.n_ccalls} 12 b l).apply st rest refl d in
      rw (r.runs, ◌>>=◌) (rw (other_header b ne, error_if))

  short_block :
      (st : LoadState S) (n : ℕ) (b : List ℕ)
      → length b < n
      → Delivers reader st.stream b
      → load_block reader n st ≡ err unexpected_end
  unfolding load_block
  short_block st n b l d =
      let (last, runs) = read_missing reader st.stream n b d l in
      rw (runs, load_block) (ground arith)

  -- A stream that ends within the header is refused with "unexpected end".
  pub undump_cut_header :
      (st : LoadState S) (b : List ℕ)
      → length b < 12
      → Delivers reader st.stream b
      → undump reader check_code st ≡ err unexpected_end
  unfolding undump load_header ◌>>=◌
  undump_cut_header st b l d = rw (short_block st 12 b l d, ◌>>=◌)

-- ===== src/Chunk/Writes.antt =====
-- `luaU_dump` (lua-5.1.5/src/ldump.c) with a writer that never fails writes the format.
use lua_5_1_source_guide.Base.{
  ℕ, ◌≡◌, refl, sym, ap, ◌∙◌, arith, List, [], ◌++◌, Bool, append_assoc, append-nil,
}
use lua_5_1_source_guide.Chunk.Proto.{Proto}
use lua_5_1_source_guide.Chunk.Dump.{DumpState, dump_block, dump}
use lua_5_1_source_guide.Chunk.Format.{chunk_form}
use lua_5_1_source_guide.Chunk.Blocks.{sends-dump}

module _ {W : Type 0} (writer : W → List ℕ → ℕ × W) (written : W → List ℕ) where
  -- What is asked of the writer: it succeeds, and what it has grows by the block.
  abbrev pub Appends : Type 0
  Appends = (w : W) (b : List ℕ) → ((writer w b).0 ≡ 0) × (written (writer w b).1 ≡ written w ++ b)

  -- From `d` to `d'` the bytes `b` have been written, with no failure.
  record Wrote (d : DumpState W) (b : List ℕ) (d' : DumpState W) : Type 0 where
    fine : d'.status ≡ 0
    grown : written d'.written ≡ written d.written ++ b

  abbrev Writes : DumpState W → List ℕ → DumpState W → Type 0
  Writes d b d' = d.status ≡ 0 → Wrote d b d'

  both :
      (d d' d'' : DumpState W) (a b : List ℕ)
      → Writes d a d'
      → Writes d' b d''
      → Writes d (a ++ b) d''
  both d d' d'' a b p q h =
      let r = p h in
      let t = q r.fine in
      record {
        fine = t.fine;
        grown =
            t.grown ∙ ap (λ (l : List ℕ). l ++ b) r.grown ∙ append_assoc (written d.written) a b;
      }

  nothing : (d : DumpState W) → Writes d [] d
  nothing d h = record { fine = h; grown = sym (append-nil (written d.written)) }

  module _ (appends : Appends) where
    block : (b : List ℕ) (d : DumpState W) → Writes d b (dump_block writer b d)
    unfolding dump_block
    block b d h = record {
      fine = ground (arith, appends d.written b);
      grown = ground (arith, appends d.written b);
    }

    -- With a writer that succeeds and appends, `luaU_dump` returns 0 and has written exactly the bytes
    -- of the format, after what the writer had.
    pub written-dump :
        (strip : Bool) (f : Proto) (w : W)
        → ((dump writer strip f w).status ≡ 0)
          × (written (dump writer strip f w).written ≡ written w ++ chunk_form strip f)
    written-dump strip f w =
        let r = sends-dump writer Writes block both nothing strip f w refl in (r.fine, r.grown)

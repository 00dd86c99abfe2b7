-- ===== src/Chunk/Failure.antt =====
-- `luaU_dump` (lua-5.1.5/src/ldump.c) with a writer that may fail: it stops at the first failure.
use lua_5_1_source_guide.Base.{
  ℕ, ◌≡◌, ◌≢◌, ◌⊎◌, inl, inr, refl, sym, ap, subst, ◌∙◌, arith, List, [], ◌∷◌, ◌++◌, Bool, ◌==◌,
  All, append_assoc, append-nil, Bool-cases,
}
use lua_5_1_source_guide.Chunk.Proto.{Proto}
use lua_5_1_source_guide.Chunk.Dump.{DumpState, dump_block, dump}
use lua_5_1_source_guide.Chunk.Format.{chunk_form}
use lua_5_1_source_guide.Chunk.Blocks.{sends-dump}

-- A writer with a log: all bytes that it has been given, and what it answered, the last first
pub record Log (W : Type 0) : Type 0 where
  pub state : W
  pub given : List ℕ
  pub answers : List ℕ

abbrev pub with_log : {W : Type 0} → (W → List ℕ → ℕ × W) → Log W → List ℕ → ℕ × Log W
with_log writer l b = (
  (writer l.state b).0,
  record {
    state = (writer l.state b).1;
    given = l.given ++ b;
    answers = (writer l.state b).0 ∷ l.answers;
  },
)

abbrev pub no_log : {W : Type 0} → W → Log W
no_log w = record { state = w; given = []; answers = [] }

abbrev pub AllFine : List ℕ → Type 0
AllFine answers = All (λ (a : ℕ). a ≡ 0) answers

module _ {W : Type 0} where
  -- No answer was a failure, so that the status is 0.
  pub record Fine (d : DumpState (Log W)) : Type 0 where
    pub status : d.status ≡ 0
    pub answers : AllFine d.written.answers

  -- The last answer was the only failure, and it is the status.
  pub record Failed (d : DumpState (Log W)) : Type 0 where
    pub status : d.status ≢ 0
    pub before : List ℕ
    pub answers : d.written.answers ≡ d.status ∷ before
    pub fine : AllFine before

  -- All bytes have been given, with no failure, or some of them, up to the first failure.
  abbrev pub Stops : List ℕ → DumpState (Log W) → Type 0
  Stops whole d =
      (Fine d × (d.written.given ≡ whole))
      ⊎ ((rest : List ℕ) × Failed d × (d.written.given ++ rest ≡ whole))

  record Gives (d : DumpState (Log W)) (b : List ℕ) (d' : DumpState (Log W)) : Type 0 where
    goes_on : Fine d → Stops (d.written.given ++ b) d'
    stays : d.status ≢ 0 → d' ≡ d

  nothing : (d : DumpState (Log W)) → Gives d [] d
  nothing d = record { goes_on = λ f. inl (f, sym (append-nil d.written.given)); stays = λ h. refl }

  goes_on_both :
      (d d' d'' : DumpState (Log W)) (a b : List ℕ)
      → Stops (d.written.given ++ a) d'
      → Gives d' b d''
      → Stops (d.written.given ++ (a ++ b)) d''
  goes_on_both d d' d'' a b (inl (fine, given)) q =
      subst (λ (whole : List ℕ). Stops whole d'')
        (ap (λ (l : List ℕ). l ++ b) given ∙ append_assoc d.written.given a b) (q.goes_on fine)
  goes_on_both d d' d'' a b (inr (rest, failed, given)) q =
      subst (Stops (d.written.given ++ (a ++ b))) (sym (q.stays failed.status)) (
        inr (
          rest ++ b,
          failed,
          sym (append_assoc d'.written.given rest b)
              ∙ ap (λ (l : List ℕ). l ++ b) given
              ∙ append_assoc d.written.given a b,
        ))

  both :
      (d d' d'' : DumpState (Log W)) (a b : List ℕ)
      → Gives d a d'
      → Gives d' b d''
      → Gives d (a ++ b) d''
  both d d' d'' a b p q = record {
    goes_on = λ f. goes_on_both d d' d'' a b (p.goes_on f) q;
    stays = λ h.
        let same = p.stays h in
        q.stays (subst (λ (e : DumpState (Log W)). e.status ≢ 0) (sym same) h) ∙ same;
  }

  module _ (writer : W → List ℕ → ℕ × W) where
    block_given :
        (b : List ℕ) (d : DumpState (Log W))
        → d.status ≡ 0
        → dump_block (with_log writer) b d ≡ record {
          written = (with_log writer d.written b).1;
          status = (writer d.written.state b).0;
        }
    unfolding dump_block
    block_given b d h = rw h refl

    block_stays :
        (b : List ℕ) (d : DumpState (Log W)) → d.status ≢ 0 → dump_block (with_log writer) b d ≡ d
    unfolding dump_block
    block_stays b d h = ground arith

    answered :
        (b : List ℕ) (d : DumpState (Log W))
        → Fine d
        → Stops (d.written.given ++ b) (record {
          written = (with_log writer d.written b).1;
          status = (writer d.written.state b).0;
        })
    answered b d f = elim (Bool-cases ((writer d.written.state b).0 == 0)) [
      | inl fine ↦ inl (record { status = ground arith; answers = (ground arith, f.answers) }, refl)
      | inr failed ↦ inr (
        [],
        record {
          status = λ e. absurd (ground (arith, e, failed));
          before = d.written.answers;
          answers = refl;
          fine = f.answers;
        },
        append-nil (d.written.given ++ b),
      )
    ]

    block : (b : List ℕ) (d : DumpState (Log W)) → Gives d b (dump_block (with_log writer) b d)
    block b d = record {
      goes_on = λ f.
          subst (Stops (d.written.given ++ b)) (sym (block_given b d f.status)) (answered b d f);
      stays = λ h. block_stays b d h;
    }

    -- Whatever the writer answers, `luaU_dump` does one of two things. Every answer was 0: it returns 0,
    -- and the blocks that the writer was given are together the bytes of the format. Or the last answer
    -- was the first that is not 0: it returns that answer, has not called the writer again, and the
    -- blocks are together a beginning of the format.
    pub dump-Stops :
        (strip : Bool) (f : Proto) (w : W)
        → Stops (chunk_form strip f) (dump (with_log writer) strip f (no_log w))
    dump-Stops strip f w =
        (sends-dump (with_log writer) Gives block both nothing strip f (no_log w)).goes_on
          (record { status = refl; answers = tt })

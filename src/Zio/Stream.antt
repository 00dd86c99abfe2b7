-- ===== src/Zio/Stream.antt =====
-- What `luaZ_read` (lua-5.1.5/src/lzio.c) delivers, however the reader cuts the
-- stream into blocks.
use lua_5_1_source_guide.Base.{
  ℕ, zero, suc, ◌+◌, ◌-◌, ◌≤◌, ◌<◌, ◌≡◌, refl, sym, ap, subst, ◌∙◌, arith, List, [], ◌∷◌, ◌++◌,
  Option, none, some, leb, if◌then◌else◌, length, take, drop, length-append, length-drop,
  take-take-drop, drop-drop, take-append_le, drop-append_le, take-all, append_assoc, append-nil,
  ◌⊎◌, inl, inr,
}
use lua_5_1_source_guide.Zio.{Zio, fill, lookahead, read_loop, read}

pub nil_parts : (xs ys : List ℕ) → [] ≡ xs ++ ys → (xs ≡ []) × (ys ≡ [])
nil_parts [] ys h = (refl, sym h)
nil_parts (x ∷ xs) ys h = absurd cc

module _ {S : Type 0} (reader : S → List ℕ × S) where
  -- From `s` the reader gives the blocks of these bytes, and then the end.
  pub data Feeds : S → List ℕ → Type 0 where
    stop : {s : S} {all : List ℕ} → (reader s).0 ≡ [] → all ≡ [] → Feeds s all
    block :
        {s : S} {rest all : List ℕ} {c : ℕ} {cs : List ℕ}
        → (reader s).0 ≡ c ∷ cs
        → Feeds (reader s).1 rest
        → all ≡ c ∷ (cs ++ rest)
        → Feeds s all

  -- What is still to come: the rest of the block in memory, and what the reader gives after it.
  pub record Delivers (z : Zio S) (bytes : List ℕ) : Type 0 where
    pub later : List ℕ
    pub count : z.n ≡ length z.p
    pub feeds : Feeds z.source later
    pub parts : bytes ≡ z.p ++ later

  -- A byte at the front, in memory
  record Ahead (z : Zio S) (c : ℕ) (bytes : List ℕ) : Type 0 where
    next : Zio S
    seen : lookahead reader z ≡ some (some c, next)
    same : Delivers next (c ∷ bytes)
    held : 0 < next.n

  look_block :
      (z : Zio S) {l : List ℕ} (c : ℕ) (bytes : List ℕ)
      → z.n ≡ 0
      → Feeds z.source l
      → l ≡ c ∷ bytes
      → Ahead z c bytes
  unfolding lookahead fill
  look_block z c bytes e (stop none_left nil) h = absurd cc
  look_block z c bytes e (block {rest = rest} {c = c'} {cs = cs} got more all) h = record {
    next = record { n = length cs + 1; p = c' ∷ cs; source = (reader z.source).1 };
    seen = ground arith;
    same = record { later = rest; count = omega arith; feeds = more; parts = sym h ∙ all };
    held = omega arith;
  }

  look_at :
      (z : Zio S) (p : List ℕ) (c : ℕ) (bytes : List ℕ)
      → z.p ≡ p
      → Delivers z (c ∷ bytes)
      → Ahead z c bytes
  unfolding lookahead
  look_at z [] c bytes e d =
      look_block z c bytes (omega (arith, d.count, ap length e)) d.feeds
        (sym (d.parts ∙ ap (λ (x : List ℕ). x ++ d.later) e))
  look_at z (x ∷ p) c bytes e d = record {
    next = z;
    seen = ground (arith, d.count, ap length e, d.parts);
    same = d;
    held = omega (arith, d.count, ap length e);
  }

  look : (z : Zio S) (c : ℕ) (bytes : List ℕ) → Delivers z (c ∷ bytes) → Ahead z c bytes
  look z c bytes d = look_at z z.p c bytes refl d

  look_end-Feeds :
      (z : Zio S) {l : List ℕ}
      → z.n ≡ 0
      → Feeds z.source l
      → l ≡ []
      → (next : Zio S) × (lookahead reader z ≡ some (none, next))
  unfolding lookahead fill
  look_end-Feeds z e (stop none_left nil) h =
      (record z { source = (reader z.source).1 }, ground arith)
  look_end-Feeds z e (block got more all) h = absurd cc

  look_end : (z : Zio S) → Delivers z [] → (next : Zio S) × (lookahead reader z ≡ some (none, next))
  look_end z d =
      let (nothing, end) = nil_parts z.p d.later d.parts in
      look_end-Feeds z (omega (arith, d.count, ap length nothing)) d.feeds end

  -- What `memcpy` takes from the block in memory
  copied :
      (z : Zio S) (m : ℕ) (bytes : List ℕ)
      → Delivers z bytes
      → m ≤ z.n
      → (take m z.p ≡ take m bytes)
        × Delivers (record z { n = z.n - m; p = drop m z.p }) (drop m bytes)
  copied z m bytes d h = (
    sym (ap (take m) d.parts ∙ take-append_le m z.p d.later (omega (arith, d.count))),
    record {
      later = d.later;
      count = omega (arith, length-drop m z.p, d.count);
      feeds = d.feeds;
      parts = ap (drop m) d.parts ∙ drop-append_le m z.p d.later (omega (arith, d.count));
    },
  )

  stored :
      {xs ys : List ℕ} {m n : ℕ} (z : Zio S)
      → xs ≡ ys
      → m ≡ n
      → ◌≡◌ {A = Option (List ℕ × ℕ × Zio S)} (some (xs, m, z)) (some (ys, n, z))
  stored z p q = cc

  no_round :
      (rounds : ℕ) (z : Zio S) (out : List ℕ) → read_loop reader rounds z 0 out ≡ some (out, 0, z)
  unfolding read_loop
  no_round zero z out = refl
  no_round (suc rounds) z out = refl

  end_round :
      (rounds : ℕ) (z : Zio S) (n : ℕ) (out : List ℕ) (next : Zio S)
      → lookahead reader z ≡ some (none, next)
      → read_loop reader (suc rounds) z (suc n) out ≡ some (out, suc n, next)
  unfolding read_loop
  end_round rounds z n out next e = rw (e, read_loop)

  block_round :
      (rounds : ℕ) (z : Zio S) (n : ℕ) (out : List ℕ) (c : ℕ) (next : Zio S)
      → lookahead reader z ≡ some (some c, next)
      → next.n ≡ length next.p
      → let m : ℕ = if leb (suc n) next.n then suc n else next.n in
        read_loop reader (suc rounds) z (suc n) out
        ≡ read_loop reader rounds
            (record { n = next.n - m; p = drop m next.p; source = next.source })
            (suc n - m)
            (out ++ take m next.p)
  unfolding read_loop
  block_round rounds z n out c next e count = rw (e, read_loop) (ground arith)

  -- The loop stores what there is, at most `n` bytes.
  record Stores (rounds : ℕ) (z : Zio S) (n : ℕ) (out bytes : List ℕ) : Type 0 where
    last : Zio S
    runs : read_loop reader rounds z n out ≡ some (out ++ take n bytes, n - length bytes, last)
    left : (length bytes < n) ⊎ Delivers last (drop n bytes)

  after_block :
      {rounds rest_rounds : ℕ} {z next : Zio S} (m n : ℕ) (out xs bytes : List ℕ)
      → xs ≡ take m bytes
      → m ≤ n
      → m ≤ length bytes
      → read_loop reader rounds z n out ≡ read_loop reader rest_rounds next (n - m) (out ++ xs)
      → Stores rest_rounds next (n - m) (out ++ xs) (drop m bytes)
      → Stores rounds z n out bytes
  after_block {rounds} {rest_rounds} {z} {next} m n out xs bytes same le fits step r =
      let e : m + (n - m) ≡ n = omega arith in
      let d : drop (n - m) (drop m bytes) ≡ drop n bytes =
        drop-drop m (n - m) bytes ∙ ap (λ (k : ℕ). drop k bytes) e in
      let t : (out ++ xs) ++ take (n - m) (drop m bytes) ≡ out ++ take n bytes =
        append_assoc out xs _
        ∙ ap (λ (l : List ℕ). out ++ l)
            (ap (λ (l : List ℕ). l ++ take (n - m) (drop m bytes)) same
              ∙ take-take-drop m (n - m) bytes
              ∙ ap (λ (k : ℕ). take k bytes) e) in
      record {
        last = r.last;
        runs = step ∙ r.runs ∙ stored r.last t (omega (arith, length-drop m bytes));
        left = elim r.left [
          | inl short ↦ inl (omega (arith, length-drop m bytes))
          | inr more ↦ inr (subst (Delivers r.last) d more)
        ];
      }

  in_block : (z : Zio S) (m : ℕ) (bytes : List ℕ) → Delivers z bytes → m ≤ z.n → m ≤ length bytes
  in_block z m bytes d h = omega (arith, d.count, ap length d.parts, length-append z.p d.later)

  read_loop-Stores :
      (rounds : ℕ) (z : Zio S) (n : ℕ) (out bytes : List ℕ)
      → Delivers z bytes
      → n ≤ rounds
      → Stores rounds z n out bytes
  read_loop-Stores rounds z zero out bytes d h = record {
    last = z;
    runs = no_round rounds z out ∙ stored z (sym (append-nil out)) (omega arith);
    left = inr d;
  }
  read_loop-Stores zero z (suc n) out bytes d h = absurd (omega arith)
  read_loop-Stores (suc rounds) z (suc n) out [] d h =
      let (next, e) = look_end z d in
      record {
        last = next;
        runs = end_round rounds z n out next e ∙ stored next (sym (append-nil out)) (omega arith);
        left = inl (omega arith);
      }
  read_loop-Stores (suc rounds) z (suc n) out (c ∷ bytes) d h =
      let a = look z c bytes d in
      let m : ℕ = if leb (suc n) a.next.n then suc n else a.next.n in
      let (same, rest) = copied a.next m (c ∷ bytes) a.same (ground arith) in
      let r =
        read_loop-Stores rounds _ (suc n - m) (out ++ take m a.next.p) (drop m (c ∷ bytes)) rest
          (ground (arith, a.held)) in
      after_block m (suc n) out (take m a.next.p) (c ∷ bytes) same (ground arith)
        (in_block a.next m (c ∷ bytes) a.same (ground arith))
        (block_round rounds z n out c a.next a.seen a.same.count) r

  -- From a stream that delivers at least `n` bytes, however they are cut into blocks, `luaZ_read`
  -- stores the first `n`, reports none missing, and leaves the stream at the byte after them.
  pub read-Delivers :
      (z : Zio S) (n : ℕ) (bytes : List ℕ)
      → Delivers z bytes
      → n ≤ length bytes
      → (last : Zio S) × (read reader z n ≡ some (take n bytes, 0, last))
        × Delivers last (drop n bytes)
  unfolding read
  read-Delivers z n bytes d h =
      let r = read_loop-Stores n z n [] bytes d (omega arith) in
      (
        r.last,
        r.runs ∙ stored r.last refl (omega arith),
        elim r.left [ inl short ↦ absurd (omega arith) | inr more ↦ more ],
      )

  -- From a stream that ends before `n` bytes, `luaZ_read` stores what there is and reports how many
  -- bytes are missing.
  pub read_missing :
      (z : Zio S) (n : ℕ) (bytes : List ℕ)
      → Delivers z bytes
      → length bytes < n
      → (last : Zio S) × (read reader z n ≡ some (bytes, n - length bytes, last))
  unfolding read
  read_missing z n bytes d h =
      let r = read_loop-Stores n z n [] bytes d (omega arith) in
      (r.last, r.runs ∙ stored r.last (take-all n bytes (omega arith)) refl)

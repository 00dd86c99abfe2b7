-- ===== src/Zio/Chars.antt =====
-- `zgetc` (lua-5.1.5/src/lzio.h) on a stream that is read byte after byte.
use lua_5_1_source_guide.Base.{
  ℕ, ◌-◌, ◌^◌, ◌<◌, ◌≡◌, refl, sym, ap, ◌∙◌, arith, List, [], ◌∷◌, ◌++◌, none, some, length,
}
use lua_5_1_source_guide.Zio.{Zio, fill, get_char}
use lua_5_1_source_guide.Zio.Stream.{Feeds, stop, block, Delivers, nil_parts}

module _ {S : Type 0} (reader : S → List ℕ × S) where
  get_block :
      (z : Zio S) {l : List ℕ} (c : ℕ) (bytes : List ℕ)
      → z.n ≡ 0
      → Feeds reader z.source l
      → l ≡ c ∷ bytes
      → (next : Zio S) × (get_char reader z ≡ some (some c, next)) × Delivers reader next bytes
  unfolding get_char fill
  get_block z c bytes e (stop none_left nil) h = absurd cc
  get_block z c bytes e (block {rest = rest} {c = c'} {cs = cs} got more all) h = (
    record { n = length cs; p = cs; source = (reader z.source).1 },
    ground arith,
    record { later = rest; count = refl; feeds = more; parts = cc },
  )

  get_at :
      (z : Zio S) (p : List ℕ) (c : ℕ) (bytes : List ℕ)
      → z.p ≡ p
      → z.n < 2 ^ 64
      → Delivers reader z (c ∷ bytes)
      → (next : Zio S) × (get_char reader z ≡ some (some c, next)) × Delivers reader next bytes
  unfolding get_char
  get_at z [] c bytes e w d =
      get_block z c bytes (omega (arith, d.count, ap length e)) d.feeds
        (sym (d.parts ∙ ap (λ (x : List ℕ). x ++ d.later) e))
  get_at z (x ∷ p) c bytes e w d = (
    record { n = z.n - 1; p = p; source = z.source },
    ground (arith, d.count, ap length e, d.parts),
    record {
      later = d.later;
      count = omega (arith, d.count, ap length e);
      feeds = d.feeds;
      parts = cc (d.parts, e);
    },
  )

  -- While the stream has a byte, `zgetc` gives the next one and moves on by one.
  pub get_char-Delivers :
      (z : Zio S) (c : ℕ) (bytes : List ℕ)
      → z.n < 2 ^ 64
      → Delivers reader z (c ∷ bytes)
      → (next : Zio S) × (get_char reader z ≡ some (some c, next)) × Delivers reader next bytes
  get_char-Delivers z c bytes w d = get_at z z.p c bytes refl w d

  end-Feeds :
      (z : Zio S) {l : List ℕ}
      → z.n ≡ 0
      → z.p ≡ []
      → Feeds reader z.source l
      → l ≡ []
      → (next : Zio S) × (get_char reader z ≡ some (none, next))
        × (next.n ≡ 2 ^ 64 - 1)
        × (get_char reader next ≡ none)
  unfolding get_char fill
  end-Feeds z e nothing (stop none_left nil) h =
      (record { n = 2 ^ 64 - 1; p = []; source = (reader z.source).1 }, ground arith, refl, refl)
  end-Feeds z e nothing (block got more all) h = absurd cc

  -- At the end of the stream `zgetc` reports EOZ, but its count wraps to the largest `size_t`: a
  -- second `zgetc` takes the block for non-empty and reads past its end.
  pub get_char_end :
      (z : Zio S)
      → Delivers reader z []
      → (next : Zio S) × (get_char reader z ≡ some (none, next))
        × (next.n ≡ 2 ^ 64 - 1)
        × (get_char reader next ≡ none)
  get_char_end z d =
      let (nothing, end) = nil_parts z.p d.later d.parts in
      end-Feeds z (omega (arith, d.count, ap length nothing)) nothing d.feeds end

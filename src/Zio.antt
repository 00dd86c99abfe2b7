-- ===== src/Zio.antt =====
-- lua-5.1.5/src/lzio.c and lzio.h: the buffered input stream. The reader, a `lua_Reader` that the
-- caller supplies, is a parameter: from its own state it gives a block of bytes, empty for NULL or
-- size 0, and its next state. A read past the end of the block in memory is the fault `none`.
pub mod Stream
pub mod Chars
use lua_5_1_source_guide.Base.{
  ℕ, zero, suc, ◌+◌, ◌-◌, ◌%◌, ◌^◌, List, [], ◌∷◌, ◌++◌, Option, none, some, ltb, leb, ◌==◌,
  if◌then◌else◌, length, take, drop,
}

-- `p` is what lies in memory from the current position on; `n` is kept beside it, as in the source.
pub record Zio (S : Type 0) : Type 0 where
  pub n : ℕ
  pub p : List ℕ
  pub source : S

-- `z->n--` on a `size_t`
abbrev pub decrement : ℕ → ℕ
decrement n = (n + 2 ^ 64 - 1) % 2 ^ 64

module _ {S : Type 0} (reader : S → List ℕ × S) where
  unfoldable pub init : S → Zio S
  init s = record { n = 0; p = []; source = s }

  -- EOZ is `none`.
  take_block : Zio S → List ℕ × S → Option ℕ × Zio S
  take_block z ([], s) = (none, record z { source = s })
  take_block z (c ∷ block, s) = (some c, record { n = length block; p = block; source = s })

  unfoldable pub fill : Zio S → Option ℕ × Zio S
  unfolding take_block
  fill z = take_block z (reader z.source)

  -- `*(z->p++)` where a block is in memory
  next_byte : Zio S → Option (Option ℕ × Zio S)
  next_byte z = elim z.p [
    | [] ↦ none
    | c ∷ p ↦ some (some c, record { n = decrement z.n; p = p; source = z.source })
  ]

  -- The macro `zgetc`; the count is decremented also where the block is used up.
  unfoldable pub get_char : Zio S → Option (Option ℕ × Zio S)
  unfolding next_byte
  get_char z = if ltb 0 z.n then next_byte z else some (fill (record z { n = decrement z.n }))

  -- The byte that `luaZ_fill` removed is put back.
  put_back : Option ℕ × Zio S → Option ℕ × Zio S
  put_back (none, z) = (none, z)
  put_back (some c, z) = (some c, record z { n = z.n + 1; p = c ∷ z.p })

  peek : Zio S → Option (Option ℕ × Zio S)
  peek z = elim z.p [ [] ↦ none | c ∷ p ↦ some (some c, z) ]

  unfoldable pub lookahead : Zio S → Option (Option ℕ × Zio S)
  unfolding put_back peek
  lookahead z = if z.n == 0 then some (put_back (fill z)) else peek z

  -- `memcpy(b, z->p, m)` with the updates of `n` and `p`; the second part is the new stream.
  copy_out : ℕ → Zio S → List ℕ × Zio S
  copy_out m z = (take m z.p, record z { n = z.n - m; p = drop m z.p })

  -- The loop of `luaZ_read`: the bytes stored, the number of missing bytes and the stream. `none`
  -- also where the rounds run out.
  pub read_loop : ℕ → Zio S → ℕ → List ℕ → Option (List ℕ × ℕ × Zio S)
  unfolding copy_out
  read_loop rounds z zero out = some (out, 0, z)
  read_loop zero z (suc n) out = none
  read_loop (suc rounds) z (suc n) out = elim (lookahead z) [
    | none ↦ none
    | some (none, z') ↦ some (out, suc n, z')
    | some (some c, z') ↦
        let m = if leb (suc n) z'.n then suc n else z'.n in
        let (bytes, z'') = copy_out m z' in
        let more = read_loop rounds z'' (suc n - m) (out ++ bytes) in
        if leb m (length z'.p) then more else none
  ]

  -- Every round stores a byte at least.
  unfoldable pub read : Zio S → ℕ → Option (List ℕ × ℕ × Zio S)
  unfolding read_loop
  read z n = read_loop n z n []

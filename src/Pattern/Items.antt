-- ===== src/Pattern/Items.antt =====
-- lua-5.1.5/src/lstrlib.c: the single items of a pattern. A pattern is a list of bytes and a pointer
-- into it an index; the byte at its end is the zero that closes every Lua string.
use lua_5_1_source_guide.Base.{
  ℕ, zero, suc, ◌+◌, ◌-◌, List, Bool, true, false, not, ◌&&◌, ltb, leb, ◌==◌, if◌then◌else◌, length,
  get_or,
}
use lua_5_1_source_guide.Pattern.State.{
  Ctype, Run, esc, ends_with_percent, missing_bracket, ok, err, stuck,
}

module _ (pattern : List ℕ) where
  abbrev pub p_at : ℕ → ℕ
  p_at i = get_or pattern i 0

  -- The `do` loop: look for a `]`
  unfoldable pub bracket_end : ℕ → ℕ → Run ℕ
  bracket_end zero p = stuck
  bracket_end (suc rounds) p =
      let p' = if p_at p == esc && not (p_at (p + 1) == 0) then p + 2 else p + 1 in
      let more = bracket_end rounds p' in
      if p_at p == 0 then err missing_bracket else if p_at p' == b']' then ok (p' + 1) else more

  unfoldable pub class_end : ℕ → Run ℕ
  class_end p =
      if p_at p == esc
      then (if p_at (p + 1) == 0 then err ends_with_percent else ok (p + 2))
      else if p_at p == b'['
      then bracket_end (suc (length pattern)) (if p_at (p + 1) == b'^' then p + 2 else p + 1)
      else ok (p + 1)

module _ (c : Ctype) where
  abbrev pub class_result : ℕ → Bool → Bool
  class_result cl res = if c.is_lower cl then res else not res

  unfoldable pub match_class : ℕ → ℕ → Bool
  match_class x cl =
      let k = c.to_lower cl in
      if k == b'a'
      then class_result cl (c.is_alpha x)
      else if k == b'c'
      then class_result cl (c.is_cntrl x)
      else if k == b'd'
      then class_result cl (c.is_digit x)
      else if k == b'l'
      then class_result cl (c.is_lower x)
      else if k == b'p'
      then class_result cl (c.is_punct x)
      else if k == b's'
      then class_result cl (c.is_space x)
      else if k == b'u'
      then class_result cl (c.is_upper x)
      else if k == b'w'
      then class_result cl (c.is_alnum x)
      else if k == b'x'
      then class_result cl (c.is_xdigit x)
      else if k == b'z'
      then class_result cl (x == 0)
      else cl == x

module _ (c : Ctype) (pattern : List ℕ) where
  -- `while (++p < ec)`; every round passes a byte at least, so `ec` rounds reach `ec`.
  unfoldable pub set_loop : ℕ → ℕ → ℕ → ℕ → Bool → Bool
  set_loop zero x p ec sig = not sig
  set_loop (suc rounds) x p ec sig =
      let here = p_at pattern (p + 1) in
      let escaped = p_at pattern (p + 2) in
      let to = p_at pattern (p + 3) in
      let after_one = set_loop rounds x (p + 1) ec sig in
      let after_escape = set_loop rounds x (p + 2) ec sig in
      let after_range = set_loop rounds x (p + 3) ec sig in
      if not (ltb (p + 1) ec)
      then not sig
      else if here == esc
      then (if match_class c x escaped then sig else after_escape)
      else if escaped == b'-' && ltb (p + 3) ec
      then (if leb here x && leb x to then sig else after_range)
      else if here == x
      then sig
      else after_one

  unfoldable pub match_bracket_class : ℕ → ℕ → ℕ → Bool
  match_bracket_class x p ec =
      if p_at pattern (p + 1) == b'^'
      then set_loop ec x (p + 1) ec false
      else set_loop ec x p ec true

  unfoldable pub single_match : ℕ → ℕ → ℕ → Bool
  single_match x p ep =
      let h = p_at pattern p in
      if h == b'.'
      then true
      else if h == esc
      then match_class c x (p_at pattern (p + 1))
      else if h == b'['
      then match_bracket_class x p (ep - 1)
      else h == x

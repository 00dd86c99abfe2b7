-- ===== src/Verifier/Loading.antt =====
-- `luaU_undump` (lua-5.1.5/src/lundump.c) with `luaG_checkcode` (lua-5.1.5/src/ldebug.c).
use lua_5_1_source_guide.Base.{◌≡◌, ◌⊎◌, ap, ◌∙◌, Bool, true, inl, inr}
use lua_5_1_source_guide.Chunk.Proto.{Protos, Proto, proto, none_left, next}
use lua_5_1_source_guide.Chunk.Loaded.{Checks, ChecksAll}

-- A function is another one, or nested in it at any depth.
unfoldable mutual
  pub Within : Proto → Proto → Type 0
  Within q (proto f ps d) = (q ≡ proto f ps d) ⊎ WithinAll q ps

  pub WithinAll : Proto → Protos → Type 0
  WithinAll q none_left = ⊥
  WithinAll q (next p ps) = Within q p ⊎ WithinAll q ps

module _ (check : Proto → Bool) (q : Proto) where
  mutual
    unfolding Within WithinAll

    Within-Checks : (p : Proto) → Checks check p → Within q p → check q ≡ true
    Within-Checks (proto f ps d) c (inl same) = ap check same ∙ c.0
    Within-Checks (proto f ps d) c (inr w) = all-Checks ps c.1 w

    all-Checks : (ps : Protos) → ChecksAll check ps → WithinAll q ps → check q ≡ true
    all-Checks none_left c w = elim w [ ]
    all-Checks (next p ps) c (inl w) = Within-Checks p c.0 w
    all-Checks (next p ps) c (inr w) = all-Checks ps c.1 w

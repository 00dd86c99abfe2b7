-- ===== src/Chunk/Loaded.antt =====
-- What `luaU_undump` (lua-5.1.5/src/lundump.c) makes of a dumped function: its sources, and what is
-- asked of it.
use lua_5_1_source_guide.Base.{
  ◌≡◌, refl, sym, ◌∙◌, arith, [], ◌∷◌, Option, none, some, Bool, true, false, ◌||◌, if◌then◌else◌,
  Bool-cases, inl, inr, ◌≢◌, ◌⊎◌,
}
use lua_5_1_source_guide.Chunk.Proto.{Str, Proto, Protos, proto, none_left, next}
use lua_5_1_source_guide.Chunk.Header.{name_eq, name_eq→eq}
use lua_5_1_source_guide.Chunk.Undump.{source_or}
use lua_5_1_source_guide.Chunk.Fits.{StrFits}
use lua_5_1_source_guide.Chunk.Format.{kept, name_form}
use lua_5_1_source_guide.Chunk.Loads.{}

-- The prototype that is loaded from the dump of `f` inside a function whose loaded source is `p`.
unfoldable mutual
  pub loaded : Bool → Option Str → Proto → Proto
  loaded strip p (proto f fs d) =
      let source = if strip then p else f.source in
      proto (record f { source = source }) (loaded_all strip source fs) (kept strip d)

  pub loaded_all : Bool → Option Str → Protos → Protos
  loaded_all strip p none_left = none_left
  loaded_all strip p (next f fs) = next (loaded strip p f) (loaded_all strip p fs)

-- Every function has a source name, and every one passes the check.
abbrev pub IsNamed : Option Str → Type 0
IsNamed s = s ≢ none

abbrev mutual
  pub AllNamed : Proto → Type 0
  AllNamed (proto f fs d) = IsNamed f.source × AllNamedAll fs

  pub AllNamedAll : Protos → Type 0
  AllNamedAll none_left = Unit
  AllNamedAll (next f fs) = AllNamed f × AllNamedAll fs

module _ (check_code : Proto → Bool) where
  abbrev mutual
    pub Checks : Proto → Type 0
    Checks (proto f fs d) = (check_code (proto f fs d) ≡ true) × ChecksAll fs

    pub ChecksAll : Protos → Type 0
    ChecksAll none_left = Unit
    ChecksAll (next f fs) = Checks f × ChecksAll fs

-- The source that `luaU_undump` gives to a function without one: "=?"
abbrev pub anonymous : Option Str
anonymous = some (b'=' ∷ b'?' ∷ [])

-- How the sources of the enclosing function, when dumped (`q`) and as loaded (`p`), are related
abbrev pub Related : Bool → Option Str → Option Str → Type 0
Related true q p = Unit
Related false q p = (q ≡ p) ⊎ (q ≡ none)

pub source_back :
    (strip : Bool) (q p s : Option Str)
    → IsNamed s
    → Related strip q p
    → source_or (name_form strip q s) p ≡ (if strip then p else s)
source_back true q p s h r = ground arith
source_back false q p s h r = elim (Bool-cases (name_eq s q)) [
  | inl same ↦ rw same (elim r [
    | inl e ↦ sym (name_eq→eq s q same ∙ e)
    | inr e ↦ absurd (h (name_eq→eq s q same ∙ e))
  ])
  | inr other ↦ rw other (written s h)
]
  where
    written : (s : Option Str) → IsNamed s → source_or s p ≡ s
    written none h = absurd (h refl)
    written (some t) h = refl

pub name_form-StrFits :
    (strip : Bool) (q s : Option Str) → StrFits s → StrFits (name_form strip q s)
name_form-StrFits strip q s h = elim (Bool-cases (name_eq s q || strip)) [
  | inl same ↦ rw same tt
  | inr other ↦ rw other h
]

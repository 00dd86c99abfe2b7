-- ===== src/Pattern/Captures.antt =====
-- The captures of a match (lua-5.1.5/src/lstrlib.c): where they lie, and what is undone on failure.
use lua_5_1_source_guide.Base.{
  ℕ, suc, ◌+◌, ◌-◌, ◌≤◌, ◌<◌, ◌≡◌, ◌≢◌, refl, sym, ap, ◌∙◌, subst, arith, none, some, true, inl,
  inr, ◌⊎◌,
}
use native.Mathlib.Decide.{ℕ_discrete}
use lua_5_1_source_guide.Pattern.State.{
  Extent, Capture, MatchState, Outcome, or_try, is_unfinished, put_capture, unfinished, position,
  size, ok, err, stuck,
}

-- A capture lies before `s`.
abbrev pub ExtentFits : ℕ → Extent → ℕ → Type 0
ExtentFits init unfinished s = init ≤ s
ExtentFits init position s = init ≤ s
ExtentFits init (size n) s = init + n ≤ s

-- So does every capture that is begun or finished.
abbrev pub IsValid : MatchState → ℕ → Type 0
IsValid ms s = (i : ℕ) → i < ms.level → ExtentFits (ms.capture i).init (ms.capture i).len s

-- The captures begun or finished are the same.
abbrev pub Same : MatchState → MatchState → Type 0
Same ms ms' = (ms'.level ≡ ms.level) × ((i : ℕ) → i < ms.level → ms'.capture i ≡ ms.capture i)

pub extent_later :
    (init : ℕ) (l : Extent) (s t : ℕ) → s ≤ t → ExtentFits init l s → ExtentFits init l t
extent_later init unfinished s t h k = omega arith
extent_later init position s t h k = omega arith
extent_later init (size n) s t h k = omega arith

pub IsValid-later : (ms : MatchState) (s t : ℕ) → s ≤ t → IsValid ms s → IsValid ms t
IsValid-later ms s t h v i k = extent_later _ (ms.capture i).len s t h (v i k)

pub Same-refl : (ms : MatchState) → Same ms ms
Same-refl ms = (refl, λ i h. refl)

pub Same-trans : (a b c : MatchState) → Same a b → Same b c → Same a c
Same-trans a b c p q = (q.0 ∙ p.0, λ i h. q.1 i (omega (arith, p.0)) ∙ p.1 i h)

pub IsValid-Same : (a b : MatchState) (s : ℕ) → Same a b → IsValid a s → IsValid b s
IsValid-Same a b s p v i h =
    subst (λ (c : Capture). ExtentFits c.init c.len s) (sym (p.1 i (omega (arith, p.0))))
      (v i (omega (arith, p.0)))

-- The captures there were begin where they did, and the others at `s` or later.
pub record Begins (ms : MatchState) (s : ℕ) (ms' : MatchState) : Type 0 where
  pub more : ms.level ≤ ms'.level
  pub old : (i : ℕ) → i < ms.level → (ms'.capture i).init ≡ (ms.capture i).init
  pub new : (i : ℕ) → ms.level ≤ i → i < ms'.level → s ≤ (ms'.capture i).init

pub Begins-refl : (ms : MatchState) (s : ℕ) → Begins ms s ms
Begins-refl ms s = record {
  more = omega arith;
  old = λ i h. refl;
  new = λ i h k. absurd (omega arith);
}

Begins-earlier :
    (ms : MatchState) (s t : ℕ) (ms' : MatchState) → s ≤ t → Begins ms t ms' → Begins ms s ms'
Begins-earlier ms s t ms' h b = record {
  more = b.more;
  old = b.old;
  new = λ i k l. omega (arith, h, b.new i k l);
}

Begins-Same :
    (a b : MatchState) (s : ℕ) (ms' : MatchState) → Same a b → Begins b s ms' → Begins a s ms'
Begins-Same a b s ms' same begins = record {
  more = omega (arith, begins.more, same.0);
  old = λ i h. begins.old i (omega (arith, same.0)) ∙ ap (λ (c : Capture). c.init) (same.1 i h);
  new = λ i h k. begins.new i (omega (arith, same.0)) k;
}

-- What a match from `s` promises of its outcome
abbrev pub Fits : ℕ → MatchState → ℕ → Outcome → Type 0
Fits end ms s (ok (some e, ms')) = (s ≤ e) × (e ≤ end) × IsValid ms' e × Begins ms s ms'
Fits end ms s (ok (none, ms')) = Same ms ms'
Fits end ms s (err x) = Unit
Fits end ms s stuck = ⊥

module _ (end : ℕ) where
  pub Fits-earlier :
      (ms : MatchState) (s t : ℕ) (r : Outcome) → s ≤ t → Fits end ms t r → Fits end ms s r
  Fits-earlier ms s t (ok (some e, ms')) h f =
      (omega arith, f.1, f.2, Begins-earlier ms s t ms' h f.3)
  Fits-earlier ms s t (ok (none, ms')) h f = f
  Fits-earlier ms s t (err x) h f = tt
  Fits-earlier ms s t stuck h f = f

  pub Fits-Same :
      (a b : MatchState) (s : ℕ) (r : Outcome) → Same a b → Fits end b s r → Fits end a s r
  Fits-Same a b s (ok (some e, ms')) h f = (f.0, f.1, f.2, Begins-Same a b s ms' h f.3)
  Fits-Same a b s (ok (none, ms')) h f = Same-trans a b ms' h f
  Fits-Same a b s (err x) h f = tt
  Fits-Same a b s stuck h f = f

  pub Fits-or_try :
      (ms : MatchState) (s : ℕ) (r : Outcome) (next : MatchState → Outcome)
      → Fits end ms s r
      → ((ms' : MatchState) → Same ms ms' → Fits end ms s (next ms'))
      → Fits end ms s (or_try r next)
  Fits-or_try ms s (ok (some e, ms')) next f g = f
  Fits-or_try ms s (ok (none, ms')) next f g = g ms' f
  Fits-or_try ms s (err x) next f g = tt
  Fits-or_try ms s stuck next f g = f

put_self : (f : ℕ → Capture) (l : ℕ) (v : Capture) → put_capture f l v l ≡ v
put_self f l v = ground arith

put_ne : (f : ℕ → Capture) (l i : ℕ) (v : Capture) → i ≢ l → put_capture f l v i ≡ f i
put_ne f l i v h = ground arith

pub unfinished_extent : (x : Extent) → is_unfinished x ≡ true → x ≡ unfinished
unfinished_extent unfinished h = refl
unfinished_extent position h = absurd cc
unfinished_extent (size n) h = absurd cc

abbrev pub CaptureFits : Capture → ℕ → Type 0
CaptureFits v s = ExtentFits v.init v.len s

-- A capture written at `l`, over valid ones
pub put-IsValid :
    (ms : MatchState) (l level s : ℕ) (v : Capture)
    → IsValid ms s
    → level ≤ suc ms.level
    → (l ≡ ms.level) ⊎ (level ≡ ms.level)
    → CaptureFits v s
    → IsValid (record { level = level; capture = put_capture ms.capture l v }) s
put-IsValid ms l level s v valid h which fits i k = elim (ℕ_discrete i l) [
  | yes e ↦
      subst (λ (c : Capture). CaptureFits c s)
        (sym (ap (put_capture ms.capture l v) e ∙ put_self ms.capture l v)) fits
  | no ne ↦
      subst (λ (c : Capture). CaptureFits c s) (sym (put_ne ms.capture l i v ne))
        (valid i (below which ne))
]
  where
    below : (l ≡ ms.level) ⊎ (level ≡ ms.level) → i ≢ l → i < ms.level
    below (inl e) ne = omega arith
    below (inr e) ne = omega arith

Begins-begun :
    (ms : MatchState) (s : ℕ) (v : Capture) (ms' : MatchState)
    → s ≤ v.init
    → Begins (record { level = ms.level + 1; capture = put_capture ms.capture ms.level v }) s ms'
    → Begins ms s ms'
Begins-begun ms s v ms' h b = record {
  more = omega (arith, b.more);
  old = λ i k.
      b.old i (omega arith)
      ∙ ap (λ (c : Capture). c.init) (put_ne ms.capture ms.level i v (omega arith));
  new = λ i k l. elim (ℕ_discrete i ms.level) [
    | yes e ↦
        let here : (ms'.capture i).init ≡ v.init =
          b.old i (omega arith)
          ∙ ap (λ (c : Capture). c.init)
              (ap (put_capture ms.capture ms.level v) e ∙ put_self ms.capture ms.level v) in
        omega (arith, here, h)
    | no ne ↦ b.new i (omega arith) l
  ];
}

Begins-closed :
    (ms : MatchState) (s l : ℕ) (x : Extent) (ms' : MatchState)
    → Begins
        (record ms {
          capture = put_capture ms.capture l (record { init = (ms.capture l).init; len = x });
        })
        s
        ms'
    → Begins ms s ms'
Begins-closed ms s l x ms' b = record {
  more = b.more;
  old = λ i k. b.old i k ∙ same_begin i;
  new = b.new;
}
  where
    same_begin :
        (i : ℕ)
        → (put_capture ms.capture l (record { init = (ms.capture l).init; len = x }) i).init
          ≡ (ms.capture i).init
    same_begin i = elim (ℕ_discrete i l) [
      | yes e ↦
          ap (λ (c : Capture). c.init)
            (ap (put_capture ms.capture l (record { init = (ms.capture l).init; len = x })) e
              ∙ put_self ms.capture l (record { init = (ms.capture l).init; len = x }))
          ∙ ap (λ (j : ℕ). (ms.capture j).init) (sym e)
      | no ne ↦ ap (λ (c : Capture). c.init) (put_ne ms.capture l i _ ne)
    ]

pub Fits-begun :
    (end : ℕ) (ms : MatchState) (s : ℕ) (v : Capture) (r : Outcome)
    → s ≤ v.init
    → Fits end (record { level = ms.level + 1; capture = put_capture ms.capture ms.level v }) s r
    → Fits end ms s (or_try r (λ ms'. ok (none, record ms' { level = ms'.level - 1 })))
Fits-begun end ms s v (ok (some e, ms')) h f = (f.0, f.1, f.2, Begins-begun ms s v ms' h f.3)
Fits-begun end ms s v (ok (none, ms')) h f =
    (omega (arith, f.0), λ i k. f.1 i (omega arith) ∙ put_ne ms.capture ms.level i v (omega arith))
Fits-begun end ms s v (err x) h f = tt
Fits-begun end ms s v stuck h f = f

reopened_at :
    (l n : ℕ) (old new : Capture)
    → old.len ≡ unfinished
    → new ≡ record { init = old.init; len = size n }
    → ◌≡◌ {A = Capture} (record { init = new.init; len = unfinished }) old
reopened_at l n old new u e = λ i. record { init = (e i).init; len = sym u i }

reopened :
    (ms ms' : MatchState) (l n i : ℕ)
    → (ms.capture l).len ≡ unfinished
    → ms'.capture l
      ≡ put_capture ms.capture l (record { init = (ms.capture l).init; len = size n }) l
    → ms'.capture i
      ≡ put_capture ms.capture l (record { init = (ms.capture l).init; len = size n }) i
    → put_capture ms'.capture l (record { init = (ms'.capture l).init; len = unfinished }) i
      ≡ ms.capture i
reopened ms ms' l n i u at_l at_i = elim (ℕ_discrete i l) [
  | yes e ↦
      ap (put_capture ms'.capture l _) e
      ∙ put_self ms'.capture l _
      ∙ reopened_at l n (ms.capture l) (ms'.capture l) u (at_l ∙ put_self ms.capture l _)
      ∙ ap ms.capture (sym e)
  | no ne ↦ put_ne ms'.capture l i _ ne ∙ at_i ∙ put_ne ms.capture l i _ ne
]

pub Fits-closed :
    (end : ℕ) (ms : MatchState) (s l n : ℕ) (r : Outcome)
    → l < ms.level
    → (ms.capture l).len ≡ unfinished
    → Fits end
        (record ms {
          capture = put_capture ms.capture l (record { init = (ms.capture l).init; len = size n });
        })
        s
        r
    → Fits end ms s (
        or_try r (λ ms'. ok (
          none,
          record ms' {
            capture =
                put_capture ms'.capture l
                  (record { init = (ms'.capture l).init; len = unfinished });
          },
        )))
Fits-closed end ms s l n (ok (some e, ms')) h u f =
    (f.0, f.1, f.2, Begins-closed ms s l (size n) ms' f.3)
Fits-closed end ms s l n (ok (none, ms')) h u f =
    (f.0, λ i k. reopened ms ms' l n i u (f.1 l h) (f.1 i k))
Fits-closed end ms s l n (err x) h u f = tt
Fits-closed end ms s l n stuck h u f = f

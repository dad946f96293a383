-- ===== src/Commands/Split/Laws.antt =====
-- The segments that the loop finds are those of the reference.
use cofi.Prelude.{
  ℕ, suc, ◌≤◌, ◌<◌, ◌≡◌, refl, sym, ap, ◌∙◌, Bool, true, false, not, ◌||◌, List, [], ◌∷◌, Option,
  none, some, Bytes, is_empty, length, ◌==◌, if◌then◌else◌, arith, Bool-cases, Option-cases, inl,
  inr,
}
use cofi.Commands.Split.{
  comma, skip_blanks, trim_end, skip_separators, until_comma, behind_comma, after_segment, clean,
  next_segment, parts, segments,
}

-- The parts behind the first.
abbrev other_parts : Bytes → List Bytes
other_parts s = elim (behind_comma s) [ none ↦ [] | some r ↦ parts r ]

parts-until_comma : (s : Bytes) → parts s ≡ until_comma s ∷ other_parts s
unfolding parts until_comma behind_comma
parts-until_comma [] = refl
parts-until_comma (c ∷ s) = ground (arith, parts-until_comma s)

length-after_segment : (s : Bytes) → length (after_segment s) ≤ length s
unfolding after_segment behind_comma
length-after_segment [] = omega arith
length-after_segment (c ∷ s) = ground (arith, length-after_segment s)

after_last : (s : Bytes) → behind_comma s ≡ none → after_segment s ≡ []
unfolding after_segment
after_last s e = rw (e, after_segment) refl

after_comma : (s : Bytes) {r : Bytes} → behind_comma s ≡ some r → after_segment s ≡ r
unfolding after_segment
after_comma s e = rw (e, after_segment) refl

pub length-skip_separators :
    (blank : ℕ → Bool) (s : Bytes) → length (skip_separators blank s) ≤ length s
unfolding skip_separators
length-skip_separators blank [] = omega arith
length-skip_separators blank (c ∷ s) = ground (arith, length-skip_separators blank s)

pub until_first :
    (c : ℕ) (t : Bytes) → (c == comma) ≡ false → until_comma (c ∷ t) ≡ c ∷ until_comma t
unfolding until_comma
until_first c t e = rw e refl

pub until_here : (c : ℕ) (t : Bytes) → (c == comma) ≡ true → until_comma (c ∷ t) ≡ []
unfolding until_comma
until_here c t e = rw e refl

pub after_first :
    (c : ℕ) (t : Bytes) → (c == comma) ≡ false → after_segment (c ∷ t) ≡ after_segment t
unfolding after_segment behind_comma
after_first c t e = ground (arith, e)

pub after_here : (c : ℕ) (t : Bytes) → (c == comma) ≡ true → after_segment (c ∷ t) ≡ t
unfolding after_segment behind_comma
after_here c t e = ground (arith, e)

length-after_first :
    (c : ℕ) (t : Bytes) → (c == comma) ≡ false → length (after_segment (c ∷ t)) ≤ length t
unfolding after_segment behind_comma
length-after_first c t e = ground (arith, e, length-after_segment t)

-- The cut keeps the first byte.
pub record KeepsFirst (cut : Bytes → Bytes) : Type 0 where
  pub cut_empty : cut [] ≡ []
  pub kept : ℕ → Bytes → Bytes
  pub cut_first : (c : ℕ) (s : Bytes) → cut (c ∷ s) ≡ c ∷ kept c s

module _ (blank : ℕ → Bool) (cut : Bytes → Bytes) (k : KeepsFirst cut) where
  abbrev cleaned : Bytes → Bytes
  cleaned = clean blank cut

  clean_empty : cleaned [] ≡ []
  unfolding skip_blanks trim_end
  clean_empty = rw (k.cut_empty) refl

  clean_blank : (c : ℕ) (s : Bytes) → blank c ≡ true → cleaned (c ∷ s) ≡ cleaned s
  unfolding skip_blanks
  clean_blank c s b = rw b refl

  pub clean_there : (c : ℕ) (s : Bytes) → blank c ≡ false → is_empty (cleaned (c ∷ s)) ≡ false
  unfolding skip_blanks trim_end
  clean_there c s b = rw b (rw (k.cut_first c s) (ground (arith, b)))

  pub segments_empty : segments cleaned [] ≡ []
  unfolding parts
  segments_empty = rw clean_empty refl

  -- A segment, unless it is empty, and those behind it.
  pub segments_step :
      (s : Bytes)
      → segments cleaned s ≡ (
          if is_empty (cleaned (until_comma s))
          then segments cleaned (after_segment s)
          else cleaned (until_comma s) ∷ segments cleaned (after_segment s))
  segments_step s = rw (parts-until_comma s) (elim (Option-cases (behind_comma s)) [
    | inl e ↦ rw (after_last s e, e, segments_empty) (first_kept [])
    | inr (r, e) ↦ rw (after_comma s e, e) (first_kept (segments cleaned r))
  ])
    where
      first_kept :
          (rest : List Bytes)
          → (if not (is_empty (cleaned (until_comma s)))
              then cleaned (until_comma s) ∷ rest
              else rest)
            ≡ (if is_empty (cleaned (until_comma s)) then rest else cleaned (until_comma s) ∷ rest)
      first_kept rest = elim (Bool-cases (is_empty (cleaned (until_comma s)))) [
        | inl e ↦ rw e refl
        | inr e ↦ rw e refl
      ]

  pub segments_blank :
      (c : ℕ) (s : Bytes)
      → blank c ≡ true
      → (c == comma) ≡ false
      → segments cleaned (c ∷ s) ≡ segments cleaned s
  unfolding parts
  segments_blank c s b other =
      rw (other, parts-until_comma s) (rw (clean_blank c (until_comma s) b) refl)

  pub segments-comma :
      (c : ℕ) (s : Bytes) → (c == comma) ≡ true → segments cleaned (c ∷ s) ≡ segments cleaned s
  unfolding parts
  segments-comma c s same = rw (same, clean_empty) refl

  pub segments_separators :
      (s : Bytes) → segments cleaned s ≡ segments cleaned (skip_separators blank s)
  unfolding skip_separators
  segments_separators [] = refl
  segments_separators (c ∷ s) = elim (Bool-cases (c == comma)) [
    | inl same ↦ rw (segments-comma c s same, same) (segments_separators s)
    | inr other ↦ elim (Bool-cases (blank c)) [
      | inl b ↦ rw (segments_blank c s b other, other, b) (segments_separators s)
      | inr no_blank ↦ rw (other, no_blank) refl
    ]
  ]

  pub separators_first :
      (s : Bytes) {c : ℕ} {t : Bytes}
      → skip_separators blank s ≡ c ∷ t
      → ((c == comma) ≡ false) × (blank c ≡ false)
  unfolding skip_separators
  separators_first [] e = absurd (ground (arith, e))
  separators_first (d ∷ s) {c} {t} e = elim (Bool-cases (d == comma || blank d)) [
    | inl sep ↦ separators_first s (sym (rw sep refl) ∙ e)
    | inr other ↦
        let first : d ≡ c = ground (arith, other, e) in rw (← first) (ground (arith, other))
  ]

  -- The first segment and those behind the cursor are the segments of the reference.
  abbrev pub Finds : Bytes → Option (Bytes × Bytes) → Type 0
  Finds s none = segments cleaned s ≡ []
  Finds s (some (segment, rest)) =
      (segments cleaned s ≡ segment ∷ segments cleaned rest) × (length rest < length s)

  next_segment_from :
      (rounds : ℕ) (s start : Bytes)
      → skip_separators blank s ≡ start
      → Finds s (next_segment blank cut (suc rounds) s)
  unfolding next_segment
  next_segment_from rounds s [] e =
      rw (e, next_segment) (segments_separators s ∙ rw e segments_empty)
  next_segment_from rounds s (c ∷ t) e =
      let (no_comma, no_blank) = separators_first s e in
      let there : is_empty (cleaned (until_comma (c ∷ t))) ≡ false =
        rw (until_first c t no_comma) (clean_there c (until_comma t) no_blank) in
      rw (e, next_segment)
        (rw there (
          segments_separators s ∙ rw e (segments_step (c ∷ t) ∙ rw there refl),
          omega
              (arith, ap length e, length-skip_separators blank s, length-after_first c t no_comma),
        ))

  pub next_segment_lem : (rounds : ℕ) (s : Bytes) → Finds s (next_segment blank cut (suc rounds) s)
  next_segment_lem rounds s = next_segment_from rounds s (skip_separators blank s) refl

-- ===== src/Commands/Segments/Rule.antt =====
-- A segment is looked for among those of the reference.
use cofi.Prelude.{
  ℕ, zero, suc, ◌≤◌, ◌<◌, ◌≡◌, refl, sym, ap, ◌∙◌, Bool, true, false, not, ◌&&◌, [], ◌∷◌, Bytes,
  is_empty, length, drop, exists_in, bytes_eq, ◌==◌, if◌then◌else◌, arith, Bool-cases, inl, inr,
}
use cofi.Commands.Split.{
  comma, skip_blanks, trim_end, skip_separators, until_comma, after_segment, clean,
}
use cofi.Commands.Split.Laws.{
  KeepsFirst, segments_empty, segments_blank, segments-comma, segments_separators, segments_step,
  separators_first, until_first, until_here, after_first, after_here, clean_there,
  length-skip_separators,
}
use cofi.Commands.Segments.{
  is_rule_blank, skip_comma, contain_loop, rule_commands_contain_segment, whole, rule_segments,
}

whole_KeepsFirst : KeepsFirst whole
whole_KeepsFirst = record { cut_empty = refl; kept = λ c s. s; cut_first = λ c s. refl }

segments-skip_comma : (s : Bytes) → rule_segments (skip_comma s) ≡ rule_segments s
segments-skip_comma [] = refl
segments-skip_comma (c ∷ s) = elim (Bool-cases (c == comma)) [
  | inl same ↦ rw same (sym (segments-comma is_rule_blank whole whole_KeepsFirst c s same))
  | inr other ↦ rw other refl
]

abbrev trim : Bytes → Bytes
trim = trim_end is_rule_blank

trim_gone : (c : ℕ) (u : Bytes) → (is_empty (trim u) && is_rule_blank c) ≡ true → trim (c ∷ u) ≡ []
unfolding trim_end
trim_gone c u e = rw e refl

trim_kept :
    (c : ℕ) (u : Bytes) → (is_empty (trim u) && is_rule_blank c) ≡ false → trim (c ∷ u) ≡ c ∷ trim u
unfolding trim_end
trim_kept c u e = rw e refl

trim_both :
    (c : ℕ) (u : Bytes)
    → (is_empty (trim u) && is_rule_blank c) ≡ true
    → (trim u ≡ []) × (is_rule_blank c ≡ true)
trim_both c u e = at (trim u) e
  where
    at : (t : Bytes) → (is_empty t && is_rule_blank c) ≡ true → (t ≡ []) × (is_rule_blank c ≡ true)
    at [] h = (refl, h)
    at (d ∷ t) h = absurd (ground (arith, h))

-- Where the cursor stands after a part that is trimmed, at its trailing blanks, is as good as behind
-- its comma.
trimmed_part :
    (p : Bytes)
    → rule_segments (skip_comma (drop (length (trim (until_comma p))) p))
      ≡ rule_segments (after_segment p)
unfolding after_segment trim_end until_comma
trimmed_part [] = refl
trimmed_part (c ∷ t) = elim (Bool-cases (c == comma)) [
  | inl same ↦ rw (until_here c t same, after_here c t same) (rw same refl)
  | inr other ↦
      rw (until_first c t other, after_first c t other)
        (elim (Bool-cases (is_empty (trim (until_comma t)) && is_rule_blank c)) [
          | inl gone ↦
              let (empty, b) = trim_both c (until_comma t) gone in
              rw (trim_gone c (until_comma t) gone) (
                rw other (
                  segments_blank is_rule_blank whole whole_KeepsFirst c t b other
                  ∙ sym (segments-skip_comma t)
                  ∙ sym (rw empty refl)
                  ∙ trimmed_part t))
          | inr stays ↦ rw (trim_kept c (until_comma t) stays) (trimmed_part t)
        ])
]

length-skip_comma : (s : Bytes) → length (skip_comma s) ≤ length s
length-skip_comma [] = omega arith
length-skip_comma (c ∷ s) = ground (arith)

length-drop : (n : ℕ) (s : Bytes) → length (drop n s) ≤ length s
length-drop zero s = omega arith
length-drop (suc n) [] = omega arith
length-drop (suc n) (c ∷ s) = omega (arith, length-drop n s)

drop_shorter :
    (text : Bytes) (c : ℕ) (t : Bytes)
    → is_empty text ≡ false
    → length (skip_comma (drop (length text) (c ∷ t))) ≤ length t
drop_shorter [] c t h = absurd (ground (arith, h))
drop_shorter (d ∷ text) c t h =
    omega (arith, length-skip_comma (drop (length text) t), length-drop (length text) t)

clean_first :
    (c : ℕ) (t : Bytes)
    → is_rule_blank c ≡ false
    → (c == comma) ≡ false
    → clean is_rule_blank whole (until_comma (c ∷ t)) ≡ trim (until_comma (c ∷ t))
unfolding skip_blanks
clean_first c t b other = rw (until_first c t other) (rw b refl)

abbrev Among : Bytes → Bytes → Bool → Type 0
Among segment p found = found ≡ exists_in (bytes_eq segment) (rule_segments p)

no_segments : (p : Bytes) → skip_separators is_rule_blank p ≡ [] → rule_segments p ≡ []
no_segments p e =
    segments_separators is_rule_blank whole whole_KeepsFirst p
    ∙ rw e (segments_empty is_rule_blank whole whole_KeepsFirst)

first_there :
    (p : Bytes) {c : ℕ} {t : Bytes}
    → skip_separators is_rule_blank p ≡ c ∷ t
    → is_empty (trim (until_comma (c ∷ t))) ≡ false
first_there p {c} {t} e =
    let (no_comma, no_blank) = separators_first is_rule_blank whole whole_KeepsFirst p e in
    sym (ap is_empty (clean_first c t no_blank no_comma))
    ∙ rw (until_first c t no_comma)
        (clean_there is_rule_blank whole whole_KeepsFirst c (until_comma t) no_blank)

first_segment :
    (p : Bytes) {c : ℕ} {t : Bytes}
    → skip_separators is_rule_blank p ≡ c ∷ t
    → rule_segments p
      ≡ trim (until_comma (c ∷ t))
        ∷ rule_segments (skip_comma (drop (length (trim (until_comma (c ∷ t)))) (c ∷ t)))
first_segment p {c} {t} e =
    let (no_comma, no_blank) = separators_first is_rule_blank whole whole_KeepsFirst p e in
    segments_separators is_rule_blank whole whole_KeepsFirst p
    ∙ rw e (
        segments_step is_rule_blank whole whole_KeepsFirst (c ∷ t)
        ∙ rw (clean_first c t no_blank no_comma, first_there p e)
            (ap (λ rest. trim (until_comma (c ∷ t)) ∷ rest) (sym (trimmed_part (c ∷ t)))))

contain_at :
    (segment : Bytes) (rounds : ℕ) (p start : Bytes)
    → skip_separators is_rule_blank p ≡ start
    → length p < suc rounds
    → ((p' : Bytes) → length p' < rounds → Among segment p' (contain_loop segment rounds p'))
    → Among segment p (contain_loop segment (suc rounds) p)
unfolding contain_loop
contain_at segment rounds p [] e b later = rw (e, contain_loop) (rw (no_segments p e) refl)
contain_at segment rounds p (c ∷ t) e b later =
    let text = trim (until_comma (c ∷ t)) in
    let behind = skip_comma (drop (length text) (c ∷ t)) in
    rw (e, contain_loop)
      (rw (first_segment p e, first_there p e)
        (ap (λ found. if bytes_eq segment text then true else found)
          (later behind (
            omega (
              arith,
              b,
              drop_shorter text c t (first_there p e),
              ap length e,
              length-skip_separators is_rule_blank p,
            )))))

contain_loop_lem :
    (segment : Bytes) (rounds : ℕ) (p : Bytes)
    → length p < rounds
    → Among segment p (contain_loop segment rounds p)
contain_loop_lem segment zero p b = absurd (omega arith)
contain_loop_lem segment (suc rounds) p b =
    contain_at segment rounds p (skip_separators is_rule_blank p) refl b
      (λ p' h. contain_loop_lem segment rounds p' h)

-- The commands of a rule contain a segment if and only if it is one of the trimmed parts between their
-- commas and is not empty.
pub rule_commands_contain_segment-exists_in :
    (commands segment : Bytes)
    → rule_commands_contain_segment commands segment
      ≡ (not (is_empty segment) && exists_in (bytes_eq segment) (rule_segments commands))
unfolding rule_commands_contain_segment
rule_commands_contain_segment-exists_in commands [] = refl
rule_commands_contain_segment-exists_in commands (c ∷ s) =
    contain_loop_lem (c ∷ s) (suc (length commands)) commands (omega arith)

-- ===== src/Matching/Fzf/Prefix.antt =====
-- src/matching/fzf_algo.c: how much of a text the score of a query looks at. fzf itself goes on to the
-- last occurrence of the query's last byte; here `pchar` is 0 once the query is found, and no
-- position behind that is read.
use cofi.Prelude.{
  ℕ, zero, suc, ◌+◌, ◌-◌, ◌*◌, ◌≤◌, ◌<◌, ◌≡◌, refl, sym, ap, ◌∙◌, Bool, true, false, List, [], ◌∷◌,
  ◌++◌, Bytes, tolower, length, length-append, take, map, All, ltb, ◌==◌, if◌then◌else◌, arith,
  Bool-cases, inl, inr,
}
use cofi.Matching.Fzf.{
  CharClass, bonus_for, char_class_of, cells_from, cells, positions, last_or, score_of,
  fzf_fuzzy_match, fzf_has_match, fzf_max_len,
}
use cofi.Matching.Fzf.Search.{length-map, length-positions, has_match-positions}

positions_none : (i : ℕ) (hs : Bytes) → positions [] i hs ≡ []
unfolding positions
positions_none i [] = refl
positions_none i (h ∷ hs) = refl

-- The positions of a query that is found stay if the text goes on.
positions-append :
    (ns : Bytes) (i : ℕ) (hs more : Bytes)
    → (length (positions ns i hs) == length ns) ≡ true
    → positions ns i (hs ++ more) ≡ positions ns i hs
unfolding positions
positions-append [] i hs more e = positions_none i (hs ++ more) ∙ sym (positions_none i hs)
positions-append (n ∷ ns) i [] more e = absurd (ground (arith, e))
positions-append (n ∷ ns) i (h ∷ hs) more e = elim (Bool-cases (tolower h == n)) [
  | inl same ↦
      rw same (ap (λ t. i ∷ t) (positions-append ns (i + 1) hs more (ground (arith, same, e))))
  | inr other ↦ rw other (positions-append (n ∷ ns) (i + 1) hs more (ground (arith, other, e)))
]

take-cells_from :
    (k first : ℕ) (prev : CharClass) (before : ℕ) (in_gap : Bool) (hs more : Bytes)
    → k ≤ length hs
    → take k (cells_from first prev before in_gap (hs ++ more))
      ≡ take k (cells_from first prev before in_gap hs)
unfolding cells_from
take-cells_from zero first prev before in_gap hs more le = refl
take-cells_from (suc k) first prev before in_gap [] more le = absurd (omega arith)
take-cells_from (suc k) first prev before in_gap (h ∷ hs) more le =
    rw
      (take-cells_from k first (char_class_of h)
        (if tolower h == first
          then 16 + bonus_for prev (char_class_of h) * 2
          else before - (if in_gap then 1 else 3))
        (if tolower h == first then false else true) hs more (omega arith))
      refl

positions-lt :
    (bound : ℕ) (ns : Bytes) (i : ℕ) (hs : Bytes)
    → i + length hs ≤ bound
    → All (λ p. p < bound) (positions ns i hs)
unfolding positions
positions-lt bound ns i [] le = tt
positions-lt bound [] i (h ∷ hs) le = tt
positions-lt bound (n ∷ ns) i (h ∷ hs) le = elim (Bool-cases (tolower h == n)) [
  | inl same ↦ rw same (omega arith, positions-lt bound ns (i + 1) hs (omega arith))
  | inr other ↦ rw other (positions-lt bound (n ∷ ns) (i + 1) hs (omega arith))
]

last_or-lt :
    (d bound : ℕ) (ps : List ℕ) → d < bound → All (λ p. p < bound) ps → last_or d ps < bound
last_or-lt d bound [] h hs = h
last_or-lt d bound (p ∷ ps) h hs = last_or-lt p bound ps hs.0 hs.1

score_of-append :
    (n n' : ℕ) (ns hs more : Bytes)
    → (length (positions (n ∷ n' ∷ ns) 0 hs) == length (n ∷ n' ∷ ns)) ≡ true
    → score_of (n ∷ n' ∷ ns) (hs ++ more) ≡ score_of (n ∷ n' ∷ ns) hs
unfolding score_of cells
score_of-append n n' ns hs more e =
    rw
      (
        positions-append (n ∷ n' ∷ ns) 0 hs more e,
        take-cells_from _ n CharClass.white 0 false hs more within,
      )
      refl
  where
    within : last_or 0 (positions (n ∷ n' ∷ ns) 0 hs) + 1 ≤ length hs
    within = omega (
      arith,
      last_or-lt 0 (length hs) (positions (n ∷ n' ∷ ns) 0 hs)
          (ground (arith, e, length-positions (n ∷ n' ∷ ns) 0 hs))
          (positions-lt (length hs) (n ∷ n' ∷ ns) 0 hs (omega arith)),
    )

-- A text that goes on behind the first place where a query of two bytes or more is complete gets the
-- score that it has up to there, whatever stands behind, as long as the whole text has at most 1024
-- bytes: a better match there is not found.
pub fuzzy_match-append :
    (n n' : ℕ) (ns hs more : Bytes)
    → fzf_has_match (n ∷ n' ∷ ns) hs ≡ true
    → length (hs ++ more) ≤ fzf_max_len
    → fzf_fuzzy_match (n ∷ n' ∷ ns) (hs ++ more) ≡ fzf_fuzzy_match (n ∷ n' ∷ ns) hs
unfolding fzf_fuzzy_match
fuzzy_match-append n n' ns hs more found short =
    rw (shorter, fits, ends, room)
      (score_of-append (tolower n) (tolower n') (map tolower ns) hs more
        (ground (arith, complete, length-map tolower ns)))
  where
    complete : (length (positions (map tolower (n ∷ n' ∷ ns)) 0 hs) == length (n ∷ n' ∷ ns)) ≡ true
    complete = sym (has_match-positions (n ∷ n' ∷ ns) 0 hs) ∙ found

    fits : ltb (length hs) (length (n ∷ n' ∷ ns)) ≡ false
    fits = ground (arith, complete, length-positions (map tolower (n ∷ n' ∷ ns)) 0 hs)

    shorter : ltb (length (hs ++ more)) (length (n ∷ n' ∷ ns)) ≡ false
    shorter = ground (arith, fits, length-append hs more)

    ends : ltb fzf_max_len (length (hs ++ more)) ≡ false
    ends = ground arith

    room : ltb fzf_max_len (length hs) ≡ false
    room = ground (arith, length-append hs more)

-- ===== src/Matching/Fzf/Bounds.antt =====
-- src/matching/fzf_algo.c: how large the scores get, which the code keeps in an `int16_t`.
use cofi.Prelude.{
  ℕ, zero, suc, ◌+◌, ◌-◌, ◌*◌, ◌^◌, ◌≤◌, ◌<◌, ◌≡◌, refl, sym, ◌∙◌, Bool, false, ◌&&◌, ◌||◌, List,
  [], ◌∷◌, Option, none, some, Bytes, tolower, length, take, drop, get_or, map, All, ltb, ◌==◌,
  if◌then◌else◌, arith, Bool-cases, inl, inr,
}
use cofi.Matching.Fzf.Search.{length-map}
use cofi.Matching.Fzf.{
  Cell, Entry, CharClass, bonus_for, char_class_of, cells_from, cells, positions, best_single,
  run_bonus, match_score, entry_at, blank_entry, fill_row, fill_rows, first_row, best_of, last_or,
  matrix_score, score_of, fzf_fuzzy_match, fzf_max_len,
}

bonus_for-le : (p c : CharClass) → bonus_for p c ≤ 10
unfolding bonus_for
bonus_for-le p c = ground arith

abbrev IsSmall : Cell → Type 0
IsSmall k = (k.bonus ≤ 10) × (k.score ≤ 36)

cells_from-IsSmall :
    (first : ℕ) (prev : CharClass) (before : ℕ) (in_gap : Bool) (hs : Bytes)
    → before ≤ 36
    → All IsSmall (cells_from first prev before in_gap hs)
unfolding cells_from
cells_from-IsSmall first prev before in_gap [] h = tt
cells_from-IsSmall first prev before in_gap (c ∷ hs) h = (
  (bonus_for-le prev (char_class_of c), ground (arith, bonus_for-le prev (char_class_of c))),
  cells_from-IsSmall first (char_class_of c) _ _ hs
      (ground (arith, bonus_for-le prev (char_class_of c))),
)

module _ {ℓ κ} {A : Type ℓ} (P : A → Type κ) where
  All-take : (n : ℕ) (xs : List A) → All P xs → All P (take n xs)
  All-take zero xs h = tt
  All-take (suc n) [] h = tt
  All-take (suc n) (x ∷ xs) h = (h.0, All-take n xs h.1)

  All-drop : (n : ℕ) (xs : List A) → All P xs → All P (drop n xs)
  All-drop zero xs h = h
  All-drop (suc n) [] h = tt
  All-drop (suc n) (x ∷ xs) h = All-drop n xs h.1

bonus_at-le : (row : List Cell) (i : ℕ) → All IsSmall row → get_or (map (λ k. k.bonus) row) i 0 ≤ 10
bonus_at-le [] i h = omega arith
bonus_at-le (k ∷ ks) zero h = h.0.0
bonus_at-le (k ∷ ks) (suc i) h = bonus_at-le ks i h.1

run_bonus-le :
    (row : List Cell) (col b consecutive : ℕ)
    → All IsSmall row
    → b ≤ 10
    → (run_bonus row col b consecutive).1 ≤ 10
unfolding run_bonus
run_bonus-le row col b consecutive h hb = ground (arith, bonus_at-le row (col + 1 - consecutive) h)

match_score-le :
    (row : List Cell) (col b : ℕ) (diag : Entry) (s2 : ℕ)
    → All IsSmall row
    → b ≤ 10
    → (match_score row col b diag s2).0 ≤ diag.h + 26
unfolding match_score
match_score-le row col b diag s2 h hb = ground (arith, run_bonus-le row col b (diag.c + 1) h hb)

-- No entry is above a bound, if there is one.
abbrev IsBelow : ℕ → Option Entry → Type 0
IsBelow bound none = Unit
IsBelow bound (some e) = e.h ≤ bound

entry_at-le :
    (bound : ℕ) (row : List Cell) (pc col : ℕ) (left : Entry) (diag : Option Entry) (k : Cell)
    → All IsSmall row
    → k.bonus ≤ 10
    → left.h ≤ bound + 26
    → IsBelow bound diag
    → (entry_at row pc col left diag k).h ≤ bound + 26
unfolding entry_at
entry_at-le bound row pc col left none k h hk hl hd = omega arith
entry_at-le bound row pc col left (some d) k h hk hl hd =
    ground (arith, match_score-le row col k.bonus d (left.h - (if left.gap then 1 else 3)) h hk)

fill_row-le :
    (bound : ℕ) (row : List Cell) (pc f col : ℕ) (left : Entry) (diag : Option Entry)
    (above : List Entry) (ks : List Cell)
    → All IsSmall row
    → All IsSmall ks
    → left.h ≤ bound + 26
    → IsBelow bound diag
    → All (λ e. e.h ≤ bound) above
    → All (λ e. e.h ≤ bound + 26) (fill_row row pc f col left diag above ks)
unfolding fill_row
fill_row-le bound row pc f col left diag [] ks h hk hl hd ha = tt
fill_row-le bound row pc f col left diag (up ∷ ups) [] h hk hl hd ha = tt
fill_row-le bound row pc f col left diag (up ∷ ups) (k ∷ ks) h hk hl hd ha =
    (this, fill_row-le bound row pc f (col + 1) _ (some up) ups ks h hk.1 this ha.0 ha.1)
  where
    this : (if ltb col f then blank_entry else entry_at row pc col left diag k).h ≤ bound + 26
    this = ground (arith, entry_at-le bound row pc col left diag k h hk.0.0 hl hd)

All-weaken : (a b : ℕ) (es : List Entry) → a ≤ b → All (λ e. e.h ≤ a) es → All (λ e. e.h ≤ b) es
All-weaken a b [] le h = tt
All-weaken a b (e ∷ es) le h = (omega (arith, h.0), All-weaken a b es le h.1)

-- Each row of the matrix adds at most 26.
fill_rows-le :
    (bound : ℕ) (row : List Cell) (f0 : ℕ) (columns : List Cell) (ns : Bytes) (fs : List ℕ)
    (above : List Entry)
    → All IsSmall row
    → All IsSmall columns
    → All (λ e. e.h ≤ bound) above
    → All (λ e. e.h ≤ bound + 26 * length ns) (fill_rows row f0 columns ns fs above)
unfolding fill_rows
fill_rows-le bound row f0 columns [] fs above h hc ha =
    All-weaken bound (bound + 26 * 0) above (omega arith) ha
fill_rows-le bound row f0 columns (n ∷ ns) [] above h hc ha =
    All-weaken bound (bound + 26 * suc (length ns)) above (omega arith) ha
fill_rows-le bound row f0 columns (n ∷ ns) (f ∷ fs) above h hc ha =
    All-weaken (bound + 26 + 26 * length ns) (bound + 26 * suc (length ns)) _ (omega arith) (
      fill_rows-le (bound + 26) row f0 columns ns fs
        (fill_row row n f f0 blank_entry none above columns) h hc
        (fill_row-le bound row n f f0 blank_entry none above columns h hc (omega arith) tt ha))

first_row-le : (ks : List Cell) → All IsSmall ks → All (λ e. e.h ≤ 36) (first_row ks)
first_row-le [] h = tt
first_row-le (k ∷ ks) h = (h.0.1, first_row-le ks h.1)

best_of-le : (bound : ℕ) (es : List Entry) → All (λ e. e.h ≤ bound) es → best_of es ≤ bound
unfolding best_of
best_of-le bound [] h = omega arith
best_of-le bound (e ∷ es) h = omega (arith, h.0, best_of-le bound es h.1)

best_single-le :
    (first best : ℕ) (ks : List Cell) → best ≤ 36 → All IsSmall ks → best_single first best ks ≤ 36
unfolding best_single
best_single-le first best [] h hk = h
best_single-le first best (k ∷ ks) h hk = ground (
  arith,
  hk.0,
  best_single-le first (if k.char == first && ltb best k.score then k.score else best) ks
      (ground (arith, hk.0)) hk.1,
)

matrix_score-le :
    (n : ℕ) (ns : Bytes) (fs : List ℕ) (row : List Cell)
    → All IsSmall row
    → matrix_score (n ∷ ns) fs row ≤ 36 + 26 * length ns
unfolding matrix_score
matrix_score-le n ns [] row h = omega arith
matrix_score-le n ns (f ∷ fs) row h = best_of-le (36 + 26 * length ns) _ (
    fill_rows-le 36 row f (drop f row) ns fs (first_row (drop f row)) h (All-drop IsSmall f row h)
      (first_row-le (drop f row) (All-drop IsSmall f row h)))

small : (first : ℕ) (hs : Bytes) → All IsSmall (cells first hs)
unfolding cells
small first hs = cells_from-IsSmall first CharClass.white 0 false hs (omega arith)

score_of-le :
    (n : ℕ) (ns hs : Bytes) {s : ℕ} → score_of (n ∷ ns) hs ≡ some s → s ≤ 36 + 26 * length ns
unfolding score_of
score_of-le n [] hs e = ground (arith, best_single-le n 0 (cells n hs) (omega arith) (small n hs))
score_of-le n (n' ∷ ns) hs e = ground (
  arith,
  matrix_score-le n (n' ∷ ns) (positions (n ∷ n' ∷ ns) 0 hs)
      (take (last_or 0 (positions (n ∷ n' ∷ ns) 0 hs) + 1) (cells n hs))
      (All-take IsSmall (last_or 0 (positions (n ∷ n' ∷ ns) 0 hs) + 1) (cells n hs) (small n hs)),
)

-- A score grows by at most 26 for each byte of the query behind the first, which gives at most 36; so
-- that no score of a text of at most 1024 bytes overflows an `int16_t`.
pub fuzzy_match-lt :
    (n : ℕ) (ns hs : Bytes) {s : ℕ}
    → fzf_fuzzy_match (n ∷ ns) hs ≡ some s
    → (s ≤ 36 + 26 * length ns) × (s < 2 ^ 15)
unfolding fzf_fuzzy_match
fuzzy_match-lt n ns hs {s} e =
    elim (Bool-cases (ltb (length hs) (length (n ∷ ns)) || ltb fzf_max_len (length hs))) [
      | inl out ↦ absurd (ground (arith, out, e))
      | inr fits ↦
          let le : s ≤ 36 + 26 * length (map tolower ns) =
            score_of-le (tolower n) (map tolower ns) hs (sym (rw fits refl) ∙ e) in
          ground (arith, le, length-map tolower ns, fits)
    ]

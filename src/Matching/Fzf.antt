-- ===== src/Matching/Fzf.antt =====
-- src/matching/fzf_algo.c: whether a query is found in a text, and how well.
-- Scores are an `int16_t` of the code that never falls below 0: a difference is compared with 0 at
-- once, so that the subtraction that stops at 0 gives the same numbers.
pub mod Search
pub mod Bounds
pub mod Prefix
mod Examples
use cofi.Prelude.{
  ℕ, zero, suc, ◌+◌, ◌-◌, ◌*◌, max, Bool, true, false, ◌&&◌, ◌||◌, List, [], ◌∷◌, Option, none,
  some, Bytes, tolower, length, take, drop, get_or, map, leb, ltb, ◌==◌, if◌then◌else◌,
}

abbrev pub fzf_max_len : ℕ
fzf_max_len = 1024

pub data CharClass : Type 0 where
  white non_word delimiter lower upper letter number : CharClass

-- `class > CHAR_NON_WORD`
abbrev is_word : CharClass → Bool
is_word white = false
is_word non_word = false
is_word _ = true

-- The bonus of a character of a word for what stands before it, if that is no word.
abbrev boundary_bonus : CharClass → Option ℕ
boundary_bonus white = some 10
boundary_bonus delimiter = some 9
boundary_bonus non_word = some 8
boundary_bonus _ = none

abbrev is_camel : CharClass → CharClass → Bool
is_camel lower upper = true
is_camel number number = false
is_camel _ number = true
is_camel _ _ = false

abbrev own_bonus : CharClass → ℕ
own_bonus non_word = 8
own_bonus delimiter = 8
own_bonus white = 10
own_bonus _ = 0

-- The bonus of a character for its class and the class of the one before it.
unfoldable pub bonus_for : CharClass → CharClass → ℕ
bonus_for prev cl =
    let other = (if is_camel prev cl then 7 else own_bonus cl) in
    if is_word cl then (elim (boundary_bonus prev) [ some b ↦ b | none ↦ other ]) else other

-- `ascii_char_classes`, and lower-case letters beyond.
unfoldable pub char_class_of : ℕ → CharClass
char_class_of c =
    if leb 128 c
    then lower
    else if leb b'a' c && leb c b'z'
    then lower
    else if leb b'A' c && leb c b'Z'
    then upper
    else if leb b'0' c && leb c b'9'
    then number
    else if c == b' ' || leb 9 c && leb c 13
    then white
    else if c == b'/' || c == b',' || c == b':' || c == b';' || c == b'|'
    then delimiter
    else non_word

-- The text behind the first byte that is `c`, as lower-case letters.
unfoldable pub behind : ℕ → Bytes → Option Bytes
behind c [] = none
behind c (h ∷ hs) = if tolower h == c then some hs else behind c hs

-- Each byte of the needle is looked for behind the one before it.
unfoldable pub fzf_has_match : Bytes → Bytes → Bool
fzf_has_match [] haystack = true
fzf_has_match (n ∷ ns) haystack = elim (behind (tolower n) haystack) [
  | none ↦ false
  | some rest ↦ fzf_has_match ns rest
]

-- What the first loop of `fzf_fuzzy_match` writes for a position: `T`, `B`, `H0` and `C0`.
pub record Cell : Type 0 where
  pub char : ℕ
  pub bonus : ℕ
  pub score : ℕ
  pub consecutive : ℕ

-- The first loop, as far as it fills the arrays, for the first byte of the needle: from a position
-- on, with the class and the score of the position before it.
unfoldable pub cells_from : ℕ → CharClass → ℕ → Bool → Bytes → List Cell
unfolding bonus_for char_class_of
cells_from first prev before in_gap [] = []
cells_from first prev before in_gap (h ∷ hs) =
    let cl = char_class_of h in
    let b = bonus_for prev cl in
    let hit = tolower h == first in
    let s = (if hit then 16 + b * 2 else before - (if in_gap then 1 else 3)) in
    record { char = tolower h; bonus = b; score = s; consecutive = if hit then 1 else 0 }
    ∷ cells_from first cl s (if hit then false else true) hs

unfoldable pub cells : ℕ → Bytes → List Cell
unfolding cells_from
cells first haystack = cells_from first white 0 false haystack

-- The first loop, as far as it fills `F`: the position of each byte of the needle in lower case, found
-- behind the one before it, as far as there are any.
unfoldable pub positions : Bytes → ℕ → Bytes → List ℕ
positions needle i [] = []
positions [] i (h ∷ hs) = []
positions (n ∷ ns) i (h ∷ hs) =
    let here = i ∷ positions ns (i + 1) hs in
    let later = positions (n ∷ ns) (i + 1) hs in if tolower h == n then here else later

-- The first loop, as far as it finds `max_score` for a needle of one byte; it stops at a boundary.
pub best_single : ℕ → ℕ → List Cell → ℕ
best_single first best [] = best
best_single first best (c ∷ cs) =
    let better = c.char == first && ltb best c.score in
    let rest = best_single first (if better then c.score else best) cs in
    if better && leb 8 c.bonus then c.score else rest

-- An entry of the matrices `H` and `C`, and `in_gap` behind it.
pub record Entry : Type 0 where
  pub h : ℕ
  pub c : ℕ
  pub gap : Bool

-- The run of matches that an entry continues, and its bonus: the run starts anew at a boundary that is
-- better than the bonus of its first byte.
unfoldable pub run_bonus : List Cell → ℕ → ℕ → ℕ → ℕ × ℕ
run_bonus row col b consecutive =
    let first = get_or (map (λ k. k.bonus) row) (col + 1 - consecutive) 0 in
    if ltb 1 consecutive
    then (if leb 8 b && ltb first b then (1, b) else (consecutive, max b (max 4 first)))
    else (consecutive, b)

-- The score `s1` of a match and its run, behind the entry on the diagonal.
unfoldable pub match_score : List Cell → ℕ → ℕ → Entry → ℕ → ℕ × ℕ
unfolding run_bonus
match_score row col b diag s2 =
    let (consecutive, b') = run_bonus row col b (diag.c + 1) in
    if ltb (diag.h + 16 + b') s2 then (diag.h + 16 + b, 0) else (diag.h + 16 + b', consecutive)

-- An entry from the one on its left and the one on the diagonal; in the first column there is none.
unfoldable pub entry_at : List Cell → ℕ → ℕ → Entry → Option Entry → Cell → Entry
unfolding match_score
entry_at row pc col left diag cell = elim diag [
  | none ↦ record { h = 0; c = 0; gap = false }
  | some d ↦
      let s2 = left.h - (if left.gap then 1 else 3) in
      let (s1, consecutive) =
        (if cell.char == pc then match_score row col cell.bonus d s2 else (0, 0)) in
      record { h = max s1 s2; c = consecutive; gap = ltb s1 s2 }
]

abbrev pub blank_entry : Entry
blank_entry = record { h = 0; c = 0; gap = false }

-- The rest of a row, from a column on: the entries of the row above, and the cells of their columns.
-- The row begins at the position `f` of its byte.
unfoldable pub fill_row :
    List Cell → ℕ → ℕ → ℕ → Entry → Option Entry → List Entry → List Cell → List Entry
unfolding entry_at
fill_row row pc f col left diag [] cs = []
fill_row row pc f col left diag (up ∷ ups) [] = []
fill_row row pc f col left diag (up ∷ ups) (k ∷ ks) =
    let e = (if ltb col f then blank_entry else entry_at row pc col left diag k) in
    e ∷ fill_row row pc f (col + 1) e (some up) ups ks

-- The rows for the bytes of the needle behind the first, each with its position.
unfoldable pub fill_rows : List Cell → ℕ → List Cell → Bytes → List ℕ → List Entry → List Entry
unfolding fill_row
fill_rows row f0 columns [] fs above = above
fill_rows row f0 columns (n ∷ ns) [] above = above
fill_rows row f0 columns (n ∷ ns) (f ∷ fs) above =
    fill_rows row f0 columns ns fs (fill_row row n f f0 blank_entry none above columns)

abbrev pub first_row : List Cell → List Entry
first_row ks = map (λ k. record { h = k.score; c = k.consecutive; gap = false }) ks

unfoldable pub best_of : List Entry → ℕ
best_of [] = 0
best_of (e ∷ es) = max e.h (best_of es)

abbrev pub last_or : ℕ → List ℕ → ℕ
last_or d [] = d
last_or d (x ∷ xs) = last_or x xs

-- The score for a needle of two bytes or more, in lower case, from the positions of its bytes: the
-- columns go from the first to the last of them.
unfoldable pub matrix_score : Bytes → List ℕ → List Cell → ℕ
unfolding fill_rows best_of
matrix_score needle [] row = 0
matrix_score [] (f ∷ fs) row = 0
matrix_score (n ∷ ns) (f ∷ fs) row =
    let columns = drop f row in best_of (fill_rows row f columns ns fs (first_row columns))

-- `none` is SCORE_MIN. The loop writes `last_idx` only where it writes `F`, so that it is the last of
-- the positions; no position behind it is read.
unfoldable pub score_of : Bytes → Bytes → Option ℕ
unfolding cells positions best_single matrix_score
score_of [] haystack = some 0
score_of (n ∷ []) haystack =
    if length (positions (n ∷ []) 0 haystack) == 1
    then some (best_single n 0 (cells n haystack))
    else none
score_of (n ∷ (n' ∷ ns)) haystack =
    let fs = positions (n ∷ n' ∷ ns) 0 haystack in
    if length fs == length (n ∷ n' ∷ ns)
    then some (matrix_score (n ∷ n' ∷ ns) fs (take (last_or 0 fs + 1) (cells n haystack)))
    else none

unfoldable pub fzf_fuzzy_match : Bytes → Bytes → Option ℕ
unfolding score_of
fzf_fuzzy_match [] haystack = some 0
fzf_fuzzy_match (n ∷ ns) haystack =
    if ltb (length haystack) (length (n ∷ ns)) || ltb fzf_max_len (length haystack)
    then none
    else score_of (map tolower (n ∷ ns)) haystack

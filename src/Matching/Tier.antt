-- ===== src/Matching/Tier.antt =====
-- src/matching/tier_score.c: the score of a query on a line of the display. A `score_t` is a double of
-- the code; the scores are whole numbers, far below 2 ^ 53, or SCORE_MIN, which is `none`.
pub mod Order
mod Examples
use cofi.Prelude.{
  ℕ, zero, suc, ◌+◌, ◌*◌, max, Bool, true, false, ◌&&◌, ◌||◌, List, [], ◌∷◌, Option, none, some,
  Bytes, is_empty, tolower, length, take, map, leb, ltb, ◌==◌, if◌then◌else◌,
}
use cofi.Matching.Fzf.{fzf_has_match, fzf_fuzzy_match}

abbrev pub consecutive_word_start_pair_bonus : ℕ
consecutive_word_start_pair_bonus = 8

abbrev pub tier_direct_base : ℕ
tier_direct_base = 10000

abbrev pub indirect_score_max : ℕ
indirect_score_max = 9998

-- A position is the start of a word if it is the first, or stands behind one of these bytes.
abbrev is_break : ℕ → Bool
is_break p = p == b' ' || p == b'-' || p == b'_' || p == b'.' || p == b'(' || p == b'|' || p == b'/'

-- The bytes, in lower case, at which a word starts; the flag says whether one starts here.
pub word_starts : Bool → Bytes → Bytes
word_starts start [] = []
word_starts start (d ∷ ds) =
    let rest = word_starts (is_break d) ds in if start then tolower d ∷ rest else rest

-- The greater of two numbers of pairs; `none` is the -1 of the table.
abbrev better : Option ℕ → Option ℕ → Option ℕ
better none b = b
better (some a) none = some a
better (some a) (some b) = some (max a b)

pub best_in : List (Option ℕ) → Option ℕ
best_in [] = none
best_in (p ∷ ps) = better p (best_in ps)

-- The best way to go on from the row above: its entries before this word, the nearest one first, and
-- one more for the word right before this one.
pub best_before : List (Option ℕ) → Option ℕ
unfolding best_in
best_before [] = none
best_before (none ∷ ps) = best_in ps
best_before (some n ∷ ps) = better (some (n + 1)) (best_in ps)

pub next_row : ℕ → List (Option ℕ) → Bytes → List (Option ℕ) → List (Option ℕ)
unfolding best_before
next_row f seen [] above = []
next_row f seen (w ∷ ws) [] = []
next_row f seen (w ∷ ws) (p ∷ ps) =
    (if w == f then best_before seen else none) ∷ next_row f (p ∷ seen) ws ps

pub rows : Bytes → Bytes → List (Option ℕ) → List (Option ℕ)
unfolding next_row
rows [] ws above = above
rows (f ∷ fs) ws above = rows fs ws (next_row f [] ws above)

abbrev first_pairs : ℕ → Bytes → List (Option ℕ)
first_pairs f ws = map (λ w. if w == f then some 0 else none) ws

-- At most 256 words are looked for, and the table has room for 64 bytes of the query and 128 words.
pub consecutive_word_start_pairs : Bytes → Bytes → ℕ
unfolding word_starts rows best_in
consecutive_word_start_pairs [] display = 0
consecutive_word_start_pairs (f ∷ []) display = 0
consecutive_word_start_pairs (f ∷ (f' ∷ fs)) display =
    let ws = take 128 (take 256 (word_starts true display)) in
    elim (best_in (rows (map tolower (take 63 (f' ∷ fs))) ws (first_pairs (tolower f) ws))) [
      | none ↦ 0
      | some n ↦ n
    ]

-- The text begins with the query, but for the case of letters.
pub begins_with : Bytes → Bytes → Bool
begins_with [] display = true
begins_with (f ∷ fs) [] = false
begins_with (f ∷ fs) (d ∷ ds) = tolower d == tolower f && begins_with fs ds

pub direct_from : Bytes → Bool → Bytes → Bool
unfolding begins_with
direct_from filter start [] = false
direct_from filter start (d ∷ ds) =
    start && begins_with filter (d ∷ ds) || direct_from filter (is_break d) ds

pub is_direct_word_boundary_match : Bytes → Bytes → Bool
unfolding direct_from
is_direct_word_boundary_match filter display =
    if is_empty filter then false else direct_from filter true display

-- The score in its tier, for the score of the match.
pub in_tier : Bool → ℕ → ℕ
in_tier direct score =
    if direct
    then score + tier_direct_base
    else if ltb indirect_score_max score
    then indirect_score_max
    else score

pub tier_score_string : Bytes → Bytes → Option ℕ
unfolding in_tier
tier_score_string filter display =
    if fzf_has_match filter display
    then (elim (fzf_fuzzy_match filter display) [
      | none ↦ none
      | some score ↦ some (
          in_tier (is_direct_word_boundary_match filter display) (
            score
            + consecutive_word_start_pairs filter display * consecutive_word_start_pair_bonus))
    ])
    else none

-- ===== src/Matching/Fzf/Examples.antt =====
-- Searches for a query in a text.
use cofi.Prelude.{◌+◌, ◌*◌, ◌^◌, ◌≤◌, ◌<◌, ◌≡◌, ◌++◌, refl, some, codes, arith}
use cofi.Matching.Fzf.{
  fzf_has_match, behind, fzf_fuzzy_match, score_of, positions, cells, cells_from, bonus_for,
  char_class_of, matrix_score, fill_rows, fill_row, entry_at, match_score, run_bonus, best_of,
}
use cofi.Matching.Fzf.Bounds.{fuzzy_match-lt}
use cofi.Matching.Fzf.Prefix.{fuzzy_match-append}

-- 16 + 20 for the F, -3, -1, -1 for the gap, 16 + 10 for the B.
scored : fzf_fuzzy_match (codes "fb") (codes "Foo Bar") ≡ some 57
unfolding fzf_fuzzy_match score_of positions cells cells_from bonus_for char_class_of matrix_score
    fill_rows fill_row entry_at match_score run_bonus best_of
scored = refl

fuzzy_match-lt_example : (57 ≤ 36 + 26 * 1) × (57 < 2 ^ 15)
fuzzy_match-lt_example = fuzzy_match-lt b'f' (codes "b") (codes "Foo Bar") scored

-- The words "ab" at the end would score more.
fuzzy_match-append_example :
    fzf_fuzzy_match (codes "ab") (codes "a_xb" ++ codes " ab")
    ≡ fzf_fuzzy_match (codes "ab") (codes "a_xb")
unfolding fzf_has_match behind
fuzzy_match-append_example =
    fuzzy_match-append b'a' b'b' (codes "") (codes "a_xb") (codes " ab") refl (omega arith)

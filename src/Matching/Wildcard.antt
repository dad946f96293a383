-- ===== src/Matching/Wildcard.antt =====
-- src/matching/window_matcher.c: window titles against wildcard patterns, and the fuzzy
-- comparison of two windows.
pub mod Language
pub mod Fuzzy
use cofi.Prelude.{
  ℕ, zero, suc, ◌-◌, Bool, true, false, ◌&&◌, ◌||◌, List, [], ◌∷◌, Option, none, some, Bytes,
  bytes_eq, is_empty, length, take, find_index, ltb, ◌==◌, if◌then◌else◌,
}
use cofi.Windows.{WindowInfo}

-- '*' and '.'
abbrev pub star : ℕ
star = 42

abbrev pub dot : ℕ
dot = 46

-- `while (*pattern == '*') pattern++;`
unfoldable pub skip_stars : Bytes → Bytes
skip_stars [] = []
skip_stars (p ∷ ps) = if p == star then skip_stars ps else p ∷ ps

-- `while (*str) { if (test(str)) return true; str++; } return false;`
unfoldable pub try_suffixes : (Bytes → Bool) → Bytes → Bool
try_suffixes test [] = false
try_suffixes test (c ∷ cs) = if test (c ∷ cs) then true else try_suffixes test cs

-- What follows a run of stars: nothing, or a pattern that some suffix has to match.
unfoldable pub after_stars : (Bytes → Bytes → Bool) → Bytes → Bytes → Bool
unfolding try_suffixes
after_stars rest [] s = true
after_stars rest (q ∷ qs) s = try_suffixes (rest (q ∷ qs)) s

-- The loop of `wildcard_match`; each round drops at least one character of the pattern.
unfoldable pub match_rounds : ℕ → Bytes → Bytes → Bool
match_rounds zero ps s = false
match_rounds (suc f) [] s = is_empty s
match_rounds (suc f) (p ∷ ps) [] = is_empty (skip_stars (p ∷ ps))
match_rounds (suc f) (p ∷ ps) (c ∷ cs) = elim (p == star) [
  | true ↦ after_stars (match_rounds f) (skip_stars ps) (c ∷ cs)
  | false ↦ elim (p == dot) [
    | true ↦ match_rounds f ps cs
    | false ↦ elim (p == c) [ true ↦ match_rounds f ps cs | false ↦ false ]
  ]
]

unfoldable pub wildcard_match : Bytes → Bytes → Bool
wildcard_match pattern s = match_rounds (suc (length pattern)) pattern s

-- The position of the first '-', which is the length of what stands before it; 0 if there is none.
unfoldable pub get_title_base_length : Bytes → ℕ
unfolding find_index
get_title_base_length title = elim (find_index (λ c. c == 45) title) [ none ↦ 0 | some i ↦ i ]

-- `strstr(text, part) != NULL`
unfoldable pub is_prefix_of : Bytes → Bytes → Bool
is_prefix_of [] text = true
is_prefix_of (p ∷ ps) [] = false
is_prefix_of (p ∷ ps) (c ∷ cs) = (p == c) && is_prefix_of ps cs

unfoldable pub contains_text : Bytes → Bytes → Bool
unfolding is_prefix_of
contains_text [] part = is_prefix_of part []
contains_text (c ∷ cs) part = if is_prefix_of part (c ∷ cs) then true else contains_text cs part

-- The test of two titles that share what stands before the dash.
unfoldable pub same_base : Bytes → Bytes → Bool
unfolding get_title_base_length bytes_eq
same_base title1 title2 =
    let base_len1 = get_title_base_length title1 in
    let base_len2 = get_title_base_length title2 in
    (ltb 0 base_len1 && ltb 0 base_len2)
    && ((base_len1 == base_len2) && bytes_eq (take base_len1 title1) (take base_len1 title2))

unfoldable pub titles_match_fuzzy : Bytes → Bytes → Bool
unfolding bytes_eq same_base contains_text
titles_match_fuzzy title1 title2 =
    if bytes_eq title1 title2
    then true
    else if same_base title1 title2
    then true
    else (contains_text title1 title2 || contains_text title2 title1)

pub windows_match_fuzzy : WindowInfo → WindowInfo → Bool
unfolding bytes_eq titles_match_fuzzy
windows_match_fuzzy w v =
    if bytes_eq w.class_name v.class_name
      && (bytes_eq w.instance_name v.instance_name && bytes_eq w.type v.type)
    then titles_match_fuzzy w.title v.title
    else false

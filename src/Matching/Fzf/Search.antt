-- ===== src/Matching/Fzf/Search.antt =====
-- src/matching/fzf_algo.c: which texts a query is found in.
use cofi.Prelude.{
  ℕ, suc, ◌+◌, ◌≤◌, ◌≡◌, refl, ap, ◌∙◌, Bool, true, false, [], ◌∷◌, Option, none, some, Bytes,
  tolower, length, map, ltb, ◌==◌, arith, Bool-cases, inl, inr,
}
use cofi.Matching.Fzf.{behind, fzf_has_match, positions, score_of, fzf_fuzzy_match, fzf_max_len}

-- The bytes of the needle stand in the haystack in their order, but for the case of letters.
pub data Subsequence : Bytes → Bytes → Type 0 where
  done : (hs : Bytes) → Subsequence [] hs
  pass : {ns hs : Bytes} (h : ℕ) → Subsequence ns hs → Subsequence ns (h ∷ hs)
  hit :
      {ns hs : Bytes} (n h : ℕ)
      → tolower h ≡ tolower n
      → Subsequence ns hs
      → Subsequence (n ∷ ns) (h ∷ hs)

abbrev pub is_found : Option ℕ → Bool
is_found none = false
is_found (some n) = true

pub length-positions : (ns : Bytes) (i : ℕ) (hs : Bytes) → length (positions ns i hs) ≤ length hs
unfolding positions
length-positions ns i [] = omega arith
length-positions [] i (h ∷ hs) = omega arith
length-positions (n ∷ ns) i (h ∷ hs) =
    ground (arith, length-positions ns (i + 1) hs, length-positions (n ∷ ns) (i + 1) hs)

pub has_match-positions :
    (ns : Bytes) (i : ℕ) (hs : Bytes)
    → fzf_has_match ns hs ≡ (length (positions (map tolower ns) i hs) == length ns)
unfolding positions fzf_has_match behind
has_match-positions [] i [] = refl
has_match-positions [] i (h ∷ hs) = refl
has_match-positions (n ∷ ns) i [] = ground arith
has_match-positions (n ∷ ns) i (h ∷ hs) = elim (Bool-cases (tolower h == tolower n)) [
  | inl same ↦ rw same (ground (arith, has_match-positions ns (i + 1) hs))
  | inr other ↦ rw other (ground (arith, has_match-positions (n ∷ ns) (i + 1) hs))
]

pub length-map : (f : ℕ → ℕ) (ns : Bytes) → length (map f ns) ≡ length ns
length-map f [] = refl
length-map f (n ∷ ns) = ap suc (length-map f ns)

has_none : (hs : Bytes) → true ≡ fzf_has_match [] hs
unfolding fzf_has_match
has_none hs = refl

found-score_of :
    (n : ℕ) (ns hs : Bytes)
    → is_found (score_of (n ∷ ns) hs) ≡ (length (positions (n ∷ ns) 0 hs) == length (n ∷ ns))
unfolding score_of
found-score_of n [] hs = ground arith
found-score_of n (n' ∷ ns) hs = ground arith

-- For a text of at most 1024 bytes, a query has a score exactly if it is found in the text.
pub found-fuzzy_match :
    (ns hs : Bytes)
    → length hs ≤ fzf_max_len
    → is_found (fzf_fuzzy_match ns hs) ≡ fzf_has_match ns hs
unfolding fzf_fuzzy_match
found-fuzzy_match [] hs short = has_none hs
found-fuzzy_match (n ∷ ns) hs short = elim (Bool-cases (ltb (length hs) (length (n ∷ ns)))) [
  | inl long ↦
      rw (long, has_match-positions (n ∷ ns) 0 hs)
        (ground (arith, long, length-positions (map tolower (n ∷ ns)) 0 hs))
  | inr fits ↦
      let room : ltb fzf_max_len (length hs) ≡ false = ground arith in
      rw (fits, room, has_match-positions (n ∷ ns) 0 hs)
        (found-score_of (tolower n) (map tolower ns) hs ∙ ground (arith, length-map tolower ns))
]

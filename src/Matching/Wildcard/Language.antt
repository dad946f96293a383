-- ===== src/Matching/Wildcard/Language.antt =====
-- What a wildcard pattern matches, and that `wildcard_match` decides it.
use cofi.Prelude.{
  ℕ, zero, suc, ◌<◌, ◌≤◌, ◌≡◌, ◌≢◌, ◌↔◌, refl, Bool, true, [], ◌∷◌, Bytes, inl, inr, is_empty,
  length, arith, ◌==◌, Bool-cases,
}
use cofi.Matching.Wildcard.{
  star, dot, skip_stars, try_suffixes, after_stars, match_rounds, wildcard_match,
}

-- '*' stands for any text, '.' for one character, any other character for itself.
pub data Matches : Bytes → Bytes → Type 0 where
  done : Matches [] []
  skip : {p : ℕ} {ps s : Bytes} → p ≡ star → Matches ps s → Matches (p ∷ ps) s
  more : {p c : ℕ} {ps s : Bytes} → p ≡ star → Matches (p ∷ ps) s → Matches (p ∷ ps) (c ∷ s)
  any : {p c : ℕ} {ps s : Bytes} → p ≡ dot → Matches ps s → Matches (p ∷ ps) (c ∷ s)
  char : {p c : ℕ} {ps s : Bytes} → p ≢ star → p ≡ c → Matches ps s → Matches (p ∷ ps) (c ∷ s)

-- Some suffix matches.
data SuffixMatches (ps : Bytes) : Bytes → Type 0 where
  here : {s : Bytes} → Matches ps s → SuffixMatches ps s
  there : {c : ℕ} {s : Bytes} → SuffixMatches ps s → SuffixMatches ps (c ∷ s)

skip_stars-cons_star : (p : ℕ) (ps : Bytes) → p ≡ star → skip_stars (p ∷ ps) ≡ skip_stars ps
unfolding skip_stars
skip_stars-cons_star p ps e = ground arith

skip_stars-cons_ne : (p : ℕ) (ps : Bytes) → p ≢ star → skip_stars (p ∷ ps) ≡ p ∷ ps
unfolding skip_stars
skip_stars-cons_ne p ps e = ground arith

length-skip_stars : (ps : Bytes) → length (skip_stars ps) ≤ length ps
unfolding skip_stars
length-skip_stars [] = omega arith
length-skip_stars (p ∷ ps) = ground (arith, length-skip_stars ps)

skip_stars-head_ne : (ps : Bytes) {q : ℕ} {qs : Bytes} → skip_stars ps ≡ q ∷ qs → q ≢ star
unfolding skip_stars
skip_stars-head_ne [] h = λ e. cc
skip_stars-head_ne (p ∷ ps) h = elim (Bool-cases (p == star)) [
  | inl e ↦ skip_stars-head_ne ps (rw e at h)
  | inr e ↦ λ k. ground arith
]

Matches-skip_stars : (ps s : Bytes) → Matches (skip_stars ps) s → Matches ps s
unfolding skip_stars
Matches-skip_stars [] s m = m
Matches-skip_stars (p ∷ ps) s m = elim (Bool-cases (p == star)) [
  | inl e ↦ skip (ground arith) (Matches-skip_stars ps s (rw e at m))
  | inr e ↦ rw e at m
]

Matches-star_all : (p : ℕ) (ps s : Bytes) → p ≡ star → Matches ps [] → Matches (p ∷ ps) s
Matches-star_all p ps [] e m = skip e m
Matches-star_all p ps (c ∷ s) e m = more e (Matches-star_all p ps s e m)

try_suffixes-Matches :
    (test : Bytes → Bool) (p : ℕ) (ps s : Bytes)
    → p ≡ star
    → ((t : Bytes) → test t ≡ true → Matches ps t)
    → try_suffixes test s ≡ true
    → Matches (p ∷ ps) s
unfolding try_suffixes
try_suffixes-Matches test p ps [] e sound h = cc
try_suffixes-Matches test p ps (c ∷ cs) e sound h = elim (Bool-cases (test (c ∷ cs))) [
  | inl t ↦ skip e (sound (c ∷ cs) t)
  | inr f ↦ more e (try_suffixes-Matches test p ps cs e sound (rw f at h))
]

after_stars-Matches :
    (rest : Bytes → Bytes → Bool) (p : ℕ) (ps s r : Bytes)
    → p ≡ star
    → skip_stars ps ≡ r
    → ((q t : Bytes) → rest q t ≡ true → Matches q t)
    → after_stars rest r s ≡ true
    → Matches (p ∷ ps) s
unfolding after_stars
after_stars-Matches rest p ps s [] e k sound h =
    Matches-star_all p ps s e (Matches-skip_stars ps [] (rw k done))
after_stars-Matches rest p ps s (q ∷ qs) e k sound h =
    try_suffixes-Matches (rest (q ∷ qs)) p ps s e
      (λ t ok. Matches-skip_stars ps t (rw k (sound (q ∷ qs) t ok))) h

match_rounds-Matches : (f : ℕ) (p s : Bytes) → match_rounds f p s ≡ true → Matches p s
unfolding match_rounds
match_rounds-Matches zero p s h = cc
match_rounds-Matches (suc f) [] [] h = done
match_rounds-Matches (suc f) [] (c ∷ cs) h = cc
match_rounds-Matches (suc f) (p ∷ ps) [] h =
    Matches-skip_stars (p ∷ ps) [] (stars_end (skip_stars (p ∷ ps)) h)
  where
    stars_end : (r : Bytes) → is_empty r ≡ true → Matches r []
    stars_end [] e = done
    stars_end (q ∷ qs) e = cc
match_rounds-Matches (suc f) (p ∷ ps) (c ∷ cs) h = elim (Bool-cases (p == star)) [
  | inl e ↦
      after_stars-Matches (match_rounds f) p ps (c ∷ cs) (skip_stars ps) (ground arith) refl
        (match_rounds-Matches f) (rw (e, match_rounds) at h)
  | inr e ↦ elim (Bool-cases (p == dot)) [
    | inl d ↦ any (ground arith) (match_rounds-Matches f ps cs (rw (e, d, match_rounds) at h))
    | inr d ↦ elim (Bool-cases (p == c)) [
      | inl k ↦
          char (ground arith) (ground arith)
            (match_rounds-Matches f ps cs (rw (e, d, k, match_rounds) at h))
      | inr k ↦ ground arith
    ]
  ]
]

Matches-SuffixMatches : {ps s : Bytes} → Matches ps s → SuffixMatches (skip_stars ps) s
unfolding skip_stars
Matches-SuffixMatches done = here done
Matches-SuffixMatches (skip {p = p} {ps = ps} e m) =
    rw (skip_stars-cons_star p ps e) (Matches-SuffixMatches m)
Matches-SuffixMatches (more e m) = there (Matches-SuffixMatches m)
Matches-SuffixMatches (any {p = p} {ps = ps} e m) =
    rw (skip_stars-cons_ne p ps (omega arith)) (here (any e m))
Matches-SuffixMatches (char {p = p} {ps = ps} n e m) =
    rw (skip_stars-cons_ne p ps n) (here (char n e m))

no_match_of_nil : {q : ℕ} {qs : Bytes} → q ≢ star → Matches (q ∷ qs) [] → ⊥
no_match_of_nil n (skip e m) = n e

try_suffixes_of_SuffixMatches :
    (test : Bytes → Bool) {q : ℕ} {qs s : Bytes}
    → q ≢ star
    → ((t : Bytes) → Matches (q ∷ qs) t → test t ≡ true)
    → SuffixMatches (q ∷ qs) s
    → try_suffixes test s ≡ true
unfolding try_suffixes
try_suffixes_of_SuffixMatches test {s = []} n complete (here m) = absurd (no_match_of_nil n m)
try_suffixes_of_SuffixMatches test {s = c ∷ cs} n complete (here m) = rw (complete (c ∷ cs) m)
try_suffixes_of_SuffixMatches test {s = c ∷ cs} n complete (there m) =
    ground (arith, try_suffixes_of_SuffixMatches test n complete m)

after_stars_of_Matches :
    (rest : Bytes → Bytes → Bool) (ps s r : Bytes)
    → skip_stars ps ≡ r
    → ((t : Bytes) → Matches r t → rest r t ≡ true)
    → SuffixMatches r s
    → after_stars rest r s ≡ true
unfolding after_stars
after_stars_of_Matches rest ps s [] k complete m = refl
after_stars_of_Matches rest ps s (q ∷ qs) k complete m =
    try_suffixes_of_SuffixMatches (rest (q ∷ qs)) (skip_stars-head_ne ps k) complete m

skip_stars_of_nil : {ps : Bytes} → Matches ps [] → is_empty (skip_stars ps) ≡ true
unfolding skip_stars
skip_stars_of_nil done = refl
skip_stars_of_nil (skip {p = p} {ps = ps} e m) =
    rw (skip_stars-cons_star p ps e) (skip_stars_of_nil m)

star_round :
    (f : ℕ) (ps s : Bytes)
    → length ps < f
    → ((q t : Bytes) → length q < f → Matches q t → match_rounds f q t ≡ true)
    → SuffixMatches (skip_stars ps) s
    → after_stars (match_rounds f) (skip_stars ps) s ≡ true
star_round f ps s lt complete =
    after_stars_of_Matches (match_rounds f) ps s (skip_stars ps) refl
      (λ t. complete (skip_stars ps) t (omega (arith, length-skip_stars ps)))

match_rounds_of_Matches :
    (f : ℕ) (p s : Bytes) → length p < f → Matches p s → match_rounds f p s ≡ true
unfolding match_rounds
match_rounds_of_Matches zero p s lt m = absurd (omega arith)
match_rounds_of_Matches (suc f) [] [] lt m = refl
match_rounds_of_Matches (suc f) [] (c ∷ cs) lt m = elim m [ ]
match_rounds_of_Matches (suc f) (p ∷ ps) [] lt m = skip_stars_of_nil m
match_rounds_of_Matches (suc f) (p ∷ ps) (c ∷ cs) lt (skip e m) = ground (
  arith,
  star_round f ps (c ∷ cs) (omega arith) (match_rounds_of_Matches f) (Matches-SuffixMatches m),
)
match_rounds_of_Matches (suc f) (p ∷ ps) (c ∷ cs) lt (more e m) = ground (
  arith,
  star_round f ps (c ∷ cs) (omega arith) (match_rounds_of_Matches f)
      (there (rw (skip_stars-cons_star p ps e) at (Matches-SuffixMatches m))),
)
match_rounds_of_Matches (suc f) (p ∷ ps) (c ∷ cs) lt (any e m) =
    ground (arith, match_rounds_of_Matches f ps cs (omega arith) m)
match_rounds_of_Matches (suc f) (p ∷ ps) (c ∷ cs) lt (char n e m) =
    ground (arith, match_rounds_of_Matches f ps cs (omega arith) m)

-- `wildcard_match` answers true for exactly the texts that the pattern stands for, whatever the
-- pattern and the text.
pub wildcard_match-iff-Matches :
    (pattern s : Bytes) → (wildcard_match pattern s ≡ true) ↔ Matches pattern s
unfolding wildcard_match
wildcard_match-iff-Matches pattern s = (
  match_rounds-Matches (suc (length pattern)) pattern s,
  match_rounds_of_Matches (suc (length pattern)) pattern s (omega arith),
)

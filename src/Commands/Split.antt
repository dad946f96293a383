-- ===== src/Commands/Split.antt =====
-- How command lines are split at commas, as src/commands/command_parser.c and
-- src/rules/rules_config.c do it: which bytes are blanks and how a segment is cut are parameters.
pub mod Laws
use cofi.Prelude.{
  ℕ, zero, suc, ◌+◌, ◌≡◌, Bool, true, false, ◌&&◌, ◌||◌, List, [], ◌∷◌, Option, none, some, Bytes,
  is_empty, length, map, keep_if, not, ◌==◌, if◌then◌else◌,
}

abbrev pub comma : ℕ
comma = 44

module _ (blank : ℕ → Bool) where
  unfoldable pub skip_blanks : Bytes → Bytes
  skip_blanks [] = []
  skip_blanks (c ∷ s) = if blank c then skip_blanks s else c ∷ s

  unfoldable pub trim_end : Bytes → Bytes
  trim_end [] = []
  trim_end (c ∷ s) = let t = trim_end s in if is_empty t && blank c then [] else c ∷ t

  unfoldable pub skip_separators : Bytes → Bytes
  skip_separators [] = []
  skip_separators (c ∷ s) = if c == comma || blank c then skip_separators s else c ∷ s

unfoldable pub until_comma : Bytes → Bytes
until_comma [] = []
until_comma (c ∷ s) = if c == comma then [] else c ∷ until_comma s

-- What stands behind the first comma; `none` if there is no comma.
unfoldable pub behind_comma : Bytes → Option Bytes
behind_comma [] = none
behind_comma (c ∷ s) = if c == comma then some s else behind_comma s

-- Where the cursor of the code stands after a segment: behind the comma, or at the end.
unfoldable pub after_segment : Bytes → Bytes
unfolding behind_comma
after_segment s = elim (behind_comma s) [ none ↦ [] | some r ↦ r ]

-- The text between commas, cut and without the blanks around it.
module _ (blank : ℕ → Bool) (cut : Bytes → Bytes) where
  abbrev pub clean : Bytes → Bytes
  clean part = trim_end blank (cut (skip_blanks blank part))

  -- One segment from the cursor on, and the cursor behind it; an empty one is passed over. Each round
  -- takes a byte at least.
  unfoldable pub next_segment : ℕ → Bytes → Option (Bytes × Bytes)
  unfolding skip_separators until_comma after_segment
  next_segment zero s = none
  next_segment (suc rounds) s =
      let start = skip_separators blank s in
      let segment = clean (until_comma start) in
      let later = next_segment rounds (after_segment start) in
      if is_empty start
      then none
      else if is_empty segment
      then later
      else some (segment, after_segment start)

-- The reference: the parts between commas, cleaned, but for the empty ones.
abbrev put_first : ℕ → List Bytes → List Bytes
put_first c [] = (c ∷ []) ∷ []
put_first c (p ∷ ps) = (c ∷ p) ∷ ps

unfoldable pub parts : Bytes → List Bytes
parts [] = [] ∷ []
parts (c ∷ s) = if c == comma then [] ∷ parts s else put_first c (parts s)

abbrev pub segments : (Bytes → Bytes) → Bytes → List Bytes
segments clean s = keep_if (λ p. not (is_empty p)) (map clean (parts s))

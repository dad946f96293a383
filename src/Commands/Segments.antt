-- ===== src/Commands/Segments.antt =====
-- Running a visitor over the segments of a command line (src/commands/command_parser.c), and looking
-- for a segment in the commands of a rule (src/rules/rules_config.c).
pub mod Visit
pub mod Rule
use cofi.Prelude.{
  ℕ, zero, suc, ◌+◌, ◌≤◌, ◌<◌, ◌≡◌, refl, sym, ap, ◌∙◌, Bool, true, false, not, ◌&&◌, ◌||◌, List,
  [], ◌∷◌, Option, none, some, Bytes, is_empty, length, take, drop, map, keep_if, exists_in,
  bytes_eq, copy_to, ◌==◌, leb, if◌then◌else◌, arith, Bool-cases, inl, inr,
}
use cofi.Commands.Split.{
  comma, skip_blanks, trim_end, skip_separators, until_comma, after_segment, clean, next_segment,
  segments,
}
use cofi.Commands.Split.Laws.{
  KeepsFirst, Finds, next_segment_lem, segments_empty, segments_blank, segments-comma,
  segments_separators, segments_step, separators_first, until_first, until_here, after_first,
  after_here, clean_there, length-skip_separators,
}

-- `isspace` in the C locale
abbrev pub isspace : ℕ → Bool
isspace c = c == 32 || (leb 9 c && leb c 13)

abbrev pub trim_whitespace_in_place : Bytes → Bytes
trim_whitespace_in_place text = trim_end isspace (skip_blanks isspace text)

unfoldable pub next_command_segment : Bytes → Option (Bytes × Bytes)
unfolding next_segment
next_command_segment cursor = next_segment isspace (copy_to 256) (suc (length cursor)) cursor

module _ {ℓ} {S : Type ℓ} (visitor : S → Bytes → S × Bool) where
  unfoldable pub visit_loop : ℕ → S → Bytes → S × Bool
  unfolding next_command_segment
  visit_loop zero s cursor = (s, true)
  visit_loop (suc rounds) s cursor = elim (next_command_segment cursor) [
    | none ↦ (s, true)
    | some (segment, rest) ↦
        let (s', ok) = visitor s segment in
        elim ok [ true ↦ visit_loop rounds s' rest | false ↦ (s', false) ]
  ]

  -- What the visitor leaves, and whether it took every segment.
  unfoldable pub visit_command_segments : Bytes → S → S × Bool
  unfolding visit_loop
  visit_command_segments command s =
      let local = trim_whitespace_in_place (copy_to 512 command) in
      if is_empty local then (s, true) else visit_loop (suc (length local)) s local

  -- The reference: the visitor over a list, up to the first that it refuses.
  unfoldable pub visit_all : List Bytes → S → S × Bool
  visit_all [] s = (s, true)
  visit_all (segment ∷ rest) s =
      let (s', ok) = visitor s segment in elim ok [ true ↦ visit_all rest s' | false ↦ (s', false) ]

abbrev pub command_segments : Bytes → List Bytes
command_segments local = segments (clean isspace (copy_to 256)) local

-- The blanks of rules_config.c.
abbrev pub is_rule_blank : ℕ → Bool
is_rule_blank c = c == 32 || (c == 9 || (c == 10 || c == 13))

-- Over the comma, where the cursor stands at one.
abbrev pub skip_comma : Bytes → Bytes
skip_comma [] = []
skip_comma (c ∷ s) = if c == comma then s else c ∷ s

unfoldable pub contain_loop : Bytes → ℕ → Bytes → Bool
unfolding skip_separators trim_end until_comma bytes_eq
contain_loop segment zero p = false
contain_loop segment (suc rounds) p =
    let start = skip_separators is_rule_blank p in
    let text = trim_end is_rule_blank (until_comma start) in
    let later = contain_loop segment rounds (skip_comma (drop (length text) start)) in
    if is_empty start
    then false
    else if not (is_empty text) && bytes_eq segment text
    then true
    else later

unfoldable pub rule_commands_contain_segment : Bytes → Bytes → Bool
unfolding contain_loop
rule_commands_contain_segment commands segment =
    if is_empty segment then false else contain_loop segment (suc (length commands)) commands

abbrev pub whole : Bytes → Bytes
whole s = s

abbrev pub rule_segments : Bytes → List Bytes
rule_segments commands = segments (clean is_rule_blank whole) commands

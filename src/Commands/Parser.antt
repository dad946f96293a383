-- ===== src/Commands/Parser.antt =====
-- How a command line becomes a command and its argument, src/commands/command_parser.c: a word and
-- the text behind it, or one word such as `jw5` that a name and its argument share.
pub mod Words
pub mod Compact
use cofi.Prelude.{
  ℕ, ◌+◌, ◌-◌, ◌≡◌, refl, Bool, true, false, not, ◌&&◌, ◌||◌, List, [], ◌∷◌, Option, none, some,
  Bytes, is_empty, length, take, drop, get_or, exists_in, copy_to, ◌==◌, leb, ltb, if◌then◌else◌,
}
use cofi.Commands.Split.{skip_blanks}
use cofi.Commands.Segments.{isspace, trim_whitespace_in_place}
use cofi.Commands.Registry.{CommandSpec, cofi_command_for_token}

abbrev pub is_exact_command : List CommandSpec → Bytes → Bool
is_exact_command commands token = elim (cofi_command_for_token commands token) [
  | none ↦ false
  | some spec ↦ true
]

-- `strncmp(token, name, strlen(name)) == 0`
abbrev pub starts_with : Bytes → Bytes → Bool
starts_with [] token = true
starts_with (n ∷ name) [] = false
starts_with (n ∷ name) (c ∷ token) = c == n && starts_with name token

-- The token is the name and a text behind it that starts with a byte of the suffix.
abbrev pub compacts : Bytes → Bytes → Bytes → Bool
compacts token suffix name =
    if leb (length token) (length name)
    then false
    else if not (starts_with name token)
    then false
    else exists_in (λ c. c == get_or token (length name) 0) suffix

-- `best_primary` and `best_name_len`
abbrev pub Best : Type 0
Best = Option Bytes × ℕ

abbrev pub best_name : Bytes → Bytes → Bytes → Best → Bytes → Best
best_name token suffix primary best name =
    if compacts token suffix name && ltb best.1 (length name)
    then (some primary, length name)
    else best

unfoldable pub best_of_names : Bytes → Bytes → Bytes → List Bytes → Best → Best
best_of_names token suffix primary [] best = best
best_of_names token suffix primary (name ∷ names) best =
    best_of_names token suffix primary names (best_name token suffix primary best name)

-- The names that a registered command has; the registry refuses a command without a primary.
abbrev pub names_of : Bytes → CommandSpec → List Bytes
names_of primary spec = primary ∷ take 5 spec.aliases

unfoldable pub best_of_command : Bytes → Best → CommandSpec → Best
unfolding best_of_names
best_of_command token best spec = elim spec.compact_suffix [
  | none ↦ best
  | some suffix ↦ elim spec.primary [
    | none ↦ best
    | some primary ↦ best_of_names token suffix primary (names_of primary spec) best
  ]
]

unfoldable pub best_compact : Bytes → List CommandSpec → Best → Best
unfolding best_of_command
best_compact token [] best = best
best_compact token (spec ∷ commands) best =
    best_compact token commands (best_of_command token best spec)

-- The two buffers afterwards.
unfoldable pub split_compact_command :
    List CommandSpec → Bytes → ℕ → ℕ → Bytes × Bytes → Bytes × Bytes
unfolding best_compact
split_compact_command commands token cmd_size arg_size out =
    if is_exact_command commands token
    then out
    else let best = best_compact token commands (none, 0) in
      elim best.0 [
        | none ↦ out
        | some primary ↦ (copy_to cmd_size primary, copy_to arg_size (drop best.1 token))
      ]

abbrev pub resolve_command_primary : List CommandSpec → Bytes → ℕ → Option Bytes
resolve_command_primary commands cmd_name primary_size =
    if primary_size == 0 then none else elim (cofi_command_for_token commands cmd_name) [
      | none ↦ none
      | some spec ↦ elim spec.primary [ none ↦ none | some p ↦ some (copy_to primary_size p) ]
    ]

unfoldable pub until_space : Bytes → Bytes
until_space [] = []
until_space (c ∷ s) = if isspace c then [] else c ∷ until_space s

unfoldable pub from_space : Bytes → Bytes
from_space [] = []
from_space (c ∷ s) = if isspace c then c ∷ s else from_space s

-- `cmd_out` and `arg_out`; `none` stands for FALSE.
unfoldable pub parse_command_and_arg : List CommandSpec → Bytes → ℕ → ℕ → Option (Bytes × Bytes)
unfolding skip_blanks until_space from_space split_compact_command
parse_command_and_arg commands input cmd_size arg_size =
    if cmd_size == 0 || arg_size == 0
    then none
    else let local = trim_whitespace_in_place (copy_to 512 input) in
      let token = copy_to 512 (until_space local) in
      let argument = skip_blanks isspace (from_space local) in
      if is_empty local
      then some ([], [])
      else if not (is_empty argument)
      then some (copy_to cmd_size token, trim_whitespace_in_place (copy_to arg_size argument))
      else some
          (split_compact_command commands token cmd_size arg_size (copy_to cmd_size token, []))

unfoldable pub parse_command_for_execution :
    List CommandSpec → Bytes → ℕ → ℕ → Option (Bytes × Bytes)
unfolding parse_command_and_arg
parse_command_for_execution commands input cmd_size arg_size =
    elim (parse_command_and_arg commands input 128 arg_size) [
      | none ↦ none
      | some (parsed_cmd, argument) ↦
          if is_empty parsed_cmd
          then some ([], argument)
          else elim (resolve_command_primary commands parsed_cmd cmd_size) [
            | none ↦ some (copy_to cmd_size parsed_cmd, argument)
            | some primary ↦ some (primary, argument)
          ]
    ]

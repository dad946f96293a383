-- ===== src/Commands/Parser/Words.antt =====
-- A word and its argument come back from the line that they make.
use cofi.Prelude.{
  ℕ, ◌-◌, ◌≤◌, ◌<◌, ◌≡◌, refl, sym, ap, ◌∙◌, true, false, List, [], ◌∷◌, ◌++◌, some, Bytes,
  is_empty, length, length-append, exists_in, take_all, ◌==◌, arith, Bool-cases, inl, inr,
}
use cofi.Commands.Split.{skip_blanks, trim_end}
use cofi.Commands.Segments.{isspace, trim_whitespace_in_place}
use cofi.Commands.Registry.{CommandSpec, cofi_command_at, cofi_command_for_token, command_has_name}
use cofi.Commands.Registry.Names.{Reachable, Reachable-for_token}
use cofi.Commands.Parser.{
  until_space, from_space, resolve_command_primary, parse_command_and_arg,
  parse_command_for_execution,
}

-- A word of a command line: not empty and without blanks.
pub record IsWord (word : Bytes) : Type 0 where
  pub word_there : is_empty word ≡ false
  pub no_blank : exists_in isspace word ≡ false

-- An argument: not empty and without blanks around it.
pub record IsArgument (argument : Bytes) : Type 0 where
  pub there : is_empty argument ≡ false
  pub front : skip_blanks isspace argument ≡ argument
  pub back : trim_end isspace argument ≡ argument

-- `word argument`
abbrev pub line : Bytes → Bytes → Bytes
line word argument = word ++ 32 ∷ argument

not_blank :
    (c : ℕ) (w : Bytes)
    → exists_in isspace (c ∷ w) ≡ false
    → (isspace c ≡ false) × (exists_in isspace w ≡ false)
not_blank c w h = elim (Bool-cases (isspace c)) [
  | inl blank ↦ absurd (ground (arith, h, blank))
  | inr other ↦ (other, sym (rw other refl) ∙ h)
]

trim_end_one :
    (c : ℕ) (t : Bytes)
    → trim_end isspace t ≡ t
    → is_empty t ≡ false
    → trim_end isspace (c ∷ t) ≡ c ∷ t
unfolding trim_end
trim_end_one c t e h = rw (e, h) refl

is_empty-line : (w a : Bytes) → is_empty (line w a) ≡ false
is_empty-line [] a = refl
is_empty-line (c ∷ w) a = refl

trim_end-line : (w a : Bytes) → IsArgument a → trim_end isspace (line w a) ≡ line w a
trim_end-line [] a h = trim_end_one 32 a h.back h.there
trim_end-line (c ∷ w) a h = trim_end_one c (line w a) (trim_end-line w a h) (is_empty-line w a)

trim-line : (w a : Bytes) → IsWord w → IsArgument a → trim_whitespace_in_place (line w a) ≡ line w a
unfolding skip_blanks
trim-line [] a h k = absurd (ground (arith, h.word_there))
trim-line (c ∷ w) a h k = rw ((not_blank c w h.no_blank).0) (trim_end-line (c ∷ w) a k)

until_space-line : (w a : Bytes) → exists_in isspace w ≡ false → until_space (line w a) ≡ w
unfolding until_space
until_space-line [] a h = refl
until_space-line (c ∷ w) a h =
    let (other, rest) = not_blank c w h in rw other (ap (λ t. c ∷ t) (until_space-line w a rest))

from_space-line : (w a : Bytes) → exists_in isspace w ≡ false → from_space (line w a) ≡ 32 ∷ a
unfolding from_space
from_space-line [] a h = refl
from_space-line (c ∷ w) a h =
    let (other, rest) = not_blank c w h in rw other (from_space-line w a rest)

skip_space : (a : Bytes) → skip_blanks isspace (32 ∷ a) ≡ skip_blanks isspace a
unfolding skip_blanks
skip_space a = refl

-- A word and an argument with a space between them are parsed back as they are, for a line of at most
-- 511 bytes and buffers that hold the word and the argument: the word is without blanks, the argument
-- without blanks around it, and neither is empty.
pub parse_command_and_arg-line :
    (commands : List CommandSpec) (word argument : Bytes) (cmd_size arg_size : ℕ)
    → IsWord word
    → IsArgument argument
    → length (line word argument) < 512
    → length word < cmd_size
    → length argument < arg_size
    → parse_command_and_arg commands (line word argument) cmd_size arg_size ≡ some (word, argument)
unfolding parse_command_and_arg
parse_command_and_arg-line commands word argument cmd_size arg_size h k fits b b' =
    let some_cmd : (cmd_size == 0) ≡ false = ground (arith, b) in
    let some_arg : (arg_size == 0) ≡ false = ground (arith, b') in
    let short : length word ≤ 511 = omega (arith, fits, length-append word (32 ∷ argument)) in
    rw
      (
        take_all 511 (line word argument) (omega (arith, fits)),
        trim-line word argument h k,
        until_space-line word argument h.no_blank,
        from_space-line word argument h.no_blank,
        skip_space argument,
        k.front,
        k.there,
      )
      (rw
        (
          some_cmd,
          some_arg,
          is_empty-line word argument,
          take_all 511 word short,
          take_all (cmd_size - 1) word (omega (arith, b)),
          take_all (arg_size - 1) argument (omega (arith, b')),
          k.front,
          k.back,
        )
        refl)

resolved :
    (commands : List CommandSpec) (word primary : Bytes) (size : ℕ) (spec : CommandSpec)
    → cofi_command_for_token commands word ≡ some spec
    → spec.primary ≡ some primary
    → length primary < size
    → resolve_command_primary commands word size ≡ some primary
resolved commands word primary size spec e e' b =
    let some_size : (size == 0) ≡ false = ground (arith, b) in
    rw (some_size, e) (rw e' (rw (take_all (size - 1) primary (omega (arith, b))) refl))

-- In a registry that the code can reach, a line of a name of a registered command and an argument is
-- run as the primary name of that command on that argument: for a name of less than 128 bytes and
-- without blanks, an argument without blanks around it, neither of them empty, a line of at most 511
-- bytes, and buffers that hold the primary and the argument.
pub parse_command_for_execution-line :
    (commands : List CommandSpec) (index : ℕ) (spec : CommandSpec) (name primary argument : Bytes)
    (cmd_size arg_size : ℕ)
    → Reachable commands
    → cofi_command_at commands index ≡ some spec
    → command_has_name spec name ≡ true
    → spec.primary ≡ some primary
    → IsWord name
    → IsArgument argument
    → length (line name argument) < 512
    → length name < 128
    → length primary < cmd_size
    → length argument < arg_size
    → parse_command_for_execution commands (line name argument) cmd_size arg_size
      ≡ some (primary, argument)
unfolding parse_command_for_execution
parse_command_for_execution-line commands index spec name primary argument cmd_size arg_size r e has
      e' h k fits short b b' =
    let found = Reachable-for_token commands index spec name r e has in
    rw
      (
        parse_command_and_arg-line commands name argument 128 arg_size h k fits short b',
        parse_command_for_execution,
      )
      (rw (h.word_there, resolved commands name primary cmd_size spec found e' b) refl)

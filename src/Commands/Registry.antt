-- ===== src/Commands/Registry.antt =====
-- The registry of commands, src/commands/command_registry.c: the commands s_commands[0 .. count), in
-- the order of their registration.
pub mod Names
use cofi.Prelude.{
  ℕ, ◌≡◌, refl, Bool, true, false, ◌||◌, List, [], ◌∷◌, ◌++◌, Option, none, some, Bytes, length,
  take, get_elem?, exists_in, find_first, bytes_eq, leb, if◌then◌else◌,
}

abbrev pub max_commands : ℕ
max_commands = 64

-- What the registry and the parser read of a command: a pointer that may be NULL is an option, and the
-- aliases are those before the first NULL.
pub record CommandSpec : Type 0 where
  pub primary : Option Bytes
  pub aliases : List Bytes
  pub compact_suffix : Option Bytes
  pub owner_provider_id : Option Bytes

abbrev pub has_primary : CommandSpec → Bytes → Bool
has_primary spec name = elim spec.primary [ none ↦ false | some primary ↦ bytes_eq primary name ]

abbrev pub command_has_name : CommandSpec → Bytes → Bool
command_has_name spec name =
    has_primary spec name || exists_in (λ alias. bytes_eq alias name) (take 5 spec.aliases)

abbrev pub name_is_registered : List CommandSpec → Bytes → Bool
name_is_registered commands name = exists_in (λ spec. command_has_name spec name) commands

-- The registry afterwards and the index of the command; `none` stands for -1.
unfoldable pub cofi_register_command : CommandSpec → List CommandSpec → List CommandSpec × Option ℕ
cofi_register_command spec commands = elim spec.primary [
  | none ↦ (commands, none)
  | some primary ↦ elim spec.owner_provider_id [
    | none ↦ (commands, none)
    | some owner ↦
        if leb max_commands (length commands)
        then (commands, none)
        else if name_is_registered commands primary
        then (commands, none)
        else if exists_in (λ alias. name_is_registered commands alias) (take 5 spec.aliases)
        then (commands, none)
        else (commands ++ spec ∷ [], some (length commands))
  ]
]

abbrev pub cofi_command_registry_reset : List CommandSpec → List CommandSpec
cofi_command_registry_reset commands = []

abbrev pub cofi_command_count : List CommandSpec → ℕ
cofi_command_count commands = length commands

abbrev pub cofi_command_at : List CommandSpec → ℕ → Option CommandSpec
cofi_command_at commands index = get_elem? commands index

abbrev pub cofi_command_by_primary : List CommandSpec → Bytes → Option CommandSpec
cofi_command_by_primary commands primary = find_first (λ spec. has_primary spec primary) commands

abbrev pub cofi_command_for_token : List CommandSpec → Bytes → Option CommandSpec
cofi_command_for_token commands token = find_first (λ spec. command_has_name spec token) commands

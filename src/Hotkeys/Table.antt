-- ===== src/Hotkeys/Table.antt =====
-- src/daemon/hotkey_config.c: the table as a map from keys to commands.
use cofi.Prelude.{
  ℕ, ◌<◌, ◌≡◌, ◌⊎◌, sym, ap, Bool, true, false, [], ◌∷◌, ◌++◌, Option, none, some, Bytes, bytes_eq,
  bytes_eq_iff, bytes_eq_refl, length, set, take, find_index, find_first, find_first-set_self,
  find_first-set_ne, find_first-snoc, find_first_of_none, find_first_of_find_index, take_all,
  if◌then◌else◌, arith, Bool-cases, Option-cases, inl, inr,
}
use cofi.Hotkeys.{HotkeyBinding, HotkeyConfig, binding, find_hotkey_binding, add_hotkey_binding}

abbrev has_key : Bytes → HotkeyBinding → Bool
has_key key b = bytes_eq b.key key

abbrev command_in : Option HotkeyBinding → Option Bytes
command_in none = none
command_in (some b) = some b.command

-- The command of a key.
abbrev pub command_of : HotkeyConfig → Bytes → Option Bytes
command_of config key = command_in (find_first (has_key key) config)

apart :
    (key key' : Bytes)
    → bytes_eq key key' ≡ false
    → (b : HotkeyBinding) → has_key key b ≡ true
    → has_key key' b ≡ false
apart key key' ne b h = rw ((bytes_eq_iff b.key key).0 h) ne

replaced_lem :
    (config : HotkeyConfig) (key command key' : Bytes) (b : HotkeyBinding) {i : ℕ}
    → find_index (has_key key) config ≡ some i
    → has_key key b ≡ true
    → command_of (set config i (record b { command = command })) key'
      ≡ (if bytes_eq key key' then some command else command_of config key')
replaced_lem config key command key' b found h = elim (Bool-cases (bytes_eq key key')) [
  | inl same ↦
      rw (same, sym ((bytes_eq_iff key key').0 same))
        (ap command_in
          (find_first-set_self (has_key key) config (record b { command = command }) found h))
  | inr other ↦ rw other (
      ap command_in (
        find_first-set_ne (has_key key) (has_key key') config (record b { command = command }) found
          (apart key key' other) (apart key key' other b h)))
]

appended_self :
    (config : HotkeyConfig) (key command : Bytes)
    → find_index (has_key key) config ≡ none
    → command_of (config ++ (record { key = key; command = command } ∷ [])) key ≡ some command
appended_self config key command absent = ground (
  arith,
  find_first-snoc (has_key key) config (record { key = key; command = command }),
  find_first_of_none (has_key key) config absent,
  bytes_eq_refl key,
)

appended_lem :
    (config : HotkeyConfig) (key command key' : Bytes)
    → find_index (has_key key) config ≡ none
    → length key < 64
    → length command < 256
    → command_of (config ++ (binding key command ∷ [])) key'
      ≡ (if bytes_eq key key' then some command else command_of config key')
appended_lem config key command key' absent short_key short =
    rw (take_all 63 key (omega arith), take_all 255 command (omega arith))
      (elim (Bool-cases (bytes_eq key key')) [
        | inl same ↦
            rw (same, sym ((bytes_eq_iff key key').0 same))
              (appended_self config key command absent)
        | inr other ↦ ground (
          arith,
          other,
          find_first-snoc (has_key key') config (record { key = key; command = command }),
        )
      ])

-- What a successful addition makes of the table.
abbrev AddedAs : HotkeyConfig → Bytes → Bytes → HotkeyConfig → Type 0
AddedAs config key command config' =
    ((find_index (has_key key) config ≡ none) × (config' ≡ config ++ (binding key command ∷ [])))
    ⊎ ((i : ℕ) × (b : HotkeyBinding) × (find_index (has_key key) config ≡ some i)
        × (has_key key b ≡ true)
        × (config' ≡ set config i (record b { command = take 255 command })))

add-AddedAs :
    (config : HotkeyConfig) (key command : Bytes)
    → (add_hotkey_binding config key command).1 ≡ true
    → AddedAs config key command (add_hotkey_binding config key command).0
unfolding add_hotkey_binding find_hotkey_binding
add-AddedAs config key command ok = elim (Option-cases (find_index (has_key key) config)) [
  | inl absent ↦ inl (absent, ground (arith, absent, ok))
  | inr (i, found) ↦
      let (b, first, same, at) = find_first_of_find_index (has_key key) config found in
      inr (i, b, found, same, ground (arith, found, at))
]

-- If a binding of a key and a command that fit their buffers is added with success, the key has that
-- command, and every other key has the command, or none, that it had.
pub add_lem :
    (config : HotkeyConfig) (key command key' : Bytes)
    → length key < 64
    → length command < 256
    → (add_hotkey_binding config key command).1 ≡ true
    → command_of (add_hotkey_binding config key command).0 key'
      ≡ (if bytes_eq key key' then some command else command_of config key')
add_lem config key command key' short_key short ok = elim (add-AddedAs config key command ok) [
  | inl (absent, longer) ↦ rw longer (appended_lem config key command key' absent short_key short)
  | inr (i, b, found, same, replaced) ↦
      rw (replaced, take_all 255 command (omega arith))
        (replaced_lem config key command key' b found same)
]

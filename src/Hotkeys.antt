-- ===== src/Hotkeys.antt =====
-- src/daemon/hotkey_config.c: the table of hot keys and the arguments of the command `hotkeys`. The
-- file of the table and its display are left out.
pub mod Table
pub mod Parsing
mod Examples
use cofi.Prelude.{
  ℕ, zero, suc, ◌+◌, ◌-◌, Bool, true, false, not, ◌&&◌, ◌||◌, List, [], ◌∷◌, ◌++◌, Option, none,
  some, Bytes, bytes_eq, is_empty, codes, length, get_elem?, set, take, remove_at, find_index, leb,
  ltb, ◌==◌, if◌then◌else◌,
}

abbrev pub max_hotkey_bindings : ℕ
max_hotkey_bindings = 64

pub record HotkeyBinding : Type 0 where
  pub key : Bytes
  pub command : Bytes

abbrev pub HotkeyConfig : Type 0
HotkeyConfig = List HotkeyBinding

abbrev pub init_hotkey_config : HotkeyConfig
init_hotkey_config = []

unfoldable pub find_hotkey_binding : HotkeyConfig → Bytes → Option ℕ
find_hotkey_binding config key = find_index (λ b. bytes_eq b.key key) config

-- `strncpy` with one byte less than the buffer, whose last byte stays 0.
abbrev pub binding : Bytes → Bytes → HotkeyBinding
binding key command = record { key = take 63 key; command = take 255 command }

-- The table, and whether the binding is in it. A key that is there only gets the new command.
unfoldable pub add_hotkey_binding : HotkeyConfig → Bytes → Bytes → HotkeyConfig × Bool
add_hotkey_binding config key command = elim (find_hotkey_binding config key) [
  | some i ↦ elim (get_elem? config i) [
    | none ↦ (config, true)
    | some b ↦ (set config i (record b { command = take 255 command }), true)
  ]
  | none ↦
      if leb max_hotkey_bindings (length config)
      then (config, false)
      else (config ++ (binding key command ∷ []), true)
]

pub init_default_hotkey_config : HotkeyConfig
init_default_hotkey_config =
    let c1 = (add_hotkey_binding init_hotkey_config (codes "Mod1+Tab") (codes "show windows!")).0 in
    let c2 = (add_hotkey_binding c1 (codes "Mod1+grave") (codes "show command!")).0 in
    (add_hotkey_binding c2 (codes "Mod1+BackSpace") (codes "show workspaces!")).0

unfoldable pub remove_hotkey_binding : HotkeyConfig → Bytes → HotkeyConfig × Bool
remove_hotkey_binding config key = elim (find_hotkey_binding config key) [
  | none ↦ (config, false)
  | some i ↦ (remove_at config i, true)
]

-- What the arguments ask for: the list, a binding of a key to a command, or that a key be unbound.
pub data Request : Type 0 where
  show : Request
  bind : Bytes → Bytes → Request
  unbind : Bytes → Request

-- `isspace` in the C locale
abbrev pub is_blank : ℕ → Bool
is_blank c = c == 32 || leb 9 c && leb c 13

unfoldable pub skip_spaces : Bytes → Bytes
skip_spaces [] = []
skip_spaces (c ∷ s) = if is_blank c then skip_spaces s else c ∷ s

-- The text up to the first blank, and the text from there on.
unfoldable pub split_word : Bytes → Bytes × Bytes
split_word [] = ([], [])
split_word (c ∷ s) =
    let (word, rest) = split_word s in if is_blank c then ([], c ∷ s) else (c ∷ word, rest)

-- A keyword opens the text if the text's first word is the keyword.
abbrev pub keywords : List Bytes
keywords = codes "set" ∷ codes "add" ∷ codes "del" ∷ codes "rm" ∷ codes "remove" ∷ []

unfoldable pub is_keyword : Bytes → List Bytes → Bool
is_keyword word [] = false
is_keyword word (k ∷ ks) = bytes_eq word k || is_keyword word ks

-- The key and what follows it, for a text without blanks in front; the buffers have 64 and 256 bytes
-- at the call.
unfoldable pub parse_binding : ℕ → ℕ → Bytes → Request
parse_binding key_size cmd_size s =
    let (key, rest) = split_word s in
    if is_empty s
    then Request.show
    else if is_empty (skip_spaces rest)
    then Request.unbind (take (key_size - 1) key)
    else Request.bind (take (key_size - 1) key) (take (cmd_size - 1) (skip_spaces rest))

unfoldable pub parse_words : ℕ → ℕ → Bytes → Request
parse_words key_size cmd_size s =
    let (word, rest) = split_word s in
    if bytes_eq word (codes "list")
    then Request.show
    else if is_keyword word keywords
    then parse_binding key_size cmd_size (skip_spaces rest)
    else parse_binding key_size cmd_size s

-- The copy of the arguments has 511 bytes.
pub parse_hotkey_command : Bytes → ℕ → ℕ → Request
parse_hotkey_command args key_size cmd_size =
    parse_words key_size cmd_size (skip_spaces (take 511 args))

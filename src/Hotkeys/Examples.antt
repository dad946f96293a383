-- ===== src/Hotkeys/Examples.antt =====
-- Runs of the table of hot keys.
use cofi.Prelude.{◌≡◌, ◌⊎◌, true, refl, ◌++◌, [], ◌∷◌, some, bytes_eq, codes, find_index, arith}
use cofi.Hotkeys.{
  HotkeyConfig, Request, add_hotkey_binding, find_hotkey_binding, parse_hotkey_command, is_keyword,
  keywords, skip_spaces,
}
use cofi.Hotkeys.Table.{command_of, add_lem}
use cofi.Hotkeys.Parsing.{parse_set_lem}

abbrev one_binding : HotkeyConfig
one_binding = record { key = codes "Mod4+1"; command = codes "jw 1" } ∷ []

add_lem_example :
    command_of (add_hotkey_binding one_binding (codes "Mod4+1") (codes "jw 2")).0 (codes "Mod4+1")
    ≡ some (codes "jw 2")
unfolding add_hotkey_binding find_hotkey_binding find_index bytes_eq
add_lem_example =
    add_lem one_binding (codes "Mod4+1") (codes "jw 2") (codes "Mod4+1") (omega arith) (omega arith)
      refl

parse_set_lem_example :
    (parse_hotkey_command (codes "set" ++ (32 ∷ codes "F1" ++ (32 ∷ codes "jw 2"))) 64 256
      ≡ Request.bind (codes "F1") (codes "jw 2"))
    × ((is_keyword (codes "F1") (codes "list" ∷ keywords) ≡ true)
        ⊎ (parse_hotkey_command (codes "F1" ++ (32 ∷ codes "jw 2")) 64 256
            ≡ Request.bind (codes "F1") (codes "jw 2")))
unfolding skip_spaces
parse_set_lem_example =
    parse_set_lem (codes "F1") (codes "jw 2") 64 256 (refl, (refl, (refl, tt))) (refl, refl)
      (omega arith) (omega arith) (omega arith)

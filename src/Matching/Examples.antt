-- ===== src/Matching/Examples.antt =====
-- Runs of the registry and of the wildcard patterns at concrete windows.
use cofi.Prelude.{
  ℤ, pos, ◌≡◌, ◌≢◌, ◌↔◌, refl, true, false, List, [], ◌∷◌, ◌++◌, some, codes, length, All, arith,
  ◌-◌, map,
}
use cofi.Windows.{WindowInfo}
use cofi.Matching.Wildcard.{wildcard_match, match_rounds, after_stars, try_suffixes, skip_stars}
use cofi.Matching.Registry.{
  MatchEntry, MatchEntryManager, captured_entry, matching_create_entry,
  match_entry_find_index_by_match_id, match_entry_gc, match_entry_reassign_live_windows,
}
use cofi.Matching.Registry.Invariant.{IsValid, match_ids}
use cofi.Matching.Registry.Runs.{
  Call, create, create_pattern, delete_by_match_id, collect, reassign, run, run-IsValid,
}
use cofi.Matching.Registry.Creation.{FitsBuffers, create_entry_fresh}
use cofi.Matching.Registry.Collected.{Keeps, gc-Keeps}
use cofi.Matching.Registry.Rebind.{settled, reassign_lem}
use cofi.Matching.Wildcard.Language.{Matches, wildcard_match-iff-Matches}

abbrev pub editor : WindowInfo
editor = record {
  id = 7;
  title = codes "*scratch* - emacs";
  class_name = codes "Emacs";
  instance_name = codes "emacs";
  type = codes "Normal";
  desktop = pos 0;
  pid = pos 100;
}

abbrev pub shell : WindowInfo
shell = record {
  id = 9;
  title = codes "shell";
  class_name = codes "XTerm";
  instance_name = codes "xterm";
  type = codes "Normal";
  desktop = pos 1;
  pid = pos 101;
}

abbrev pub editor_entry : MatchEntry
editor_entry = record {
  match_id = pos 1;
  bound_x11_id = 7;
  class_name = codes "Emacs";
  instance_name = codes "emacs";
  type = codes "Normal";
  original_title = codes ".scratch. - emacs";
  assigned = true;
}

abbrev shell_entry : MatchEntry
shell_entry = record {
  match_id = pos 2;
  bound_x11_id = 0;
  class_name = [];
  instance_name = [];
  type = [];
  original_title = codes "sh*l";
  assigned = false;
}

abbrev pub two_entries : MatchEntryManager
two_entries = record { entries = editor_entry ∷ shell_entry ∷ []; next_match_id = pos 3 }

star_in_the_middle : wildcard_match (codes "sh*l") (codes "shell") ≡ true
unfolding wildcard_match match_rounds after_stars try_suffixes skip_stars
star_in_the_middle = refl

pub two_entries-IsValid : IsValid two_entries
two_entries-IsValid = record {
  next_positive = omega arith;
  capacity = omega arith;
  issued = omega arith;
  distinct = (((λ e. ground arith), tt), (tt, tt));
  bindings = (refl, (refl, tt));
}

wildcard_match-iff-Matches_example :
    (wildcard_match (codes "sh*l") (codes "shell") ≡ true) ↔ Matches (codes "sh*l") (codes "shell")
wildcard_match-iff-Matches_example = wildcard_match-iff-Matches (codes "sh*l") (codes "shell")

abbrev a_day : List Call
a_day =
    create shell
    ∷ reassign (shell ∷ [])
    ∷ create_pattern (codes "*")
    ∷ collect (pos 2 ∷ [])
    ∷ delete_by_match_id (pos 2)
    ∷ []

run-IsValid_example : IsValid (run two_entries a_day)
run-IsValid_example =
    run-IsValid a_day two_entries two_entries-IsValid
      (omega arith, ((omega arith, tt), (tt, (tt, (tt, tt))))) (omega arith)

pub editor-FitsBuffers : FitsBuffers editor
editor-FitsBuffers = omega arith

create_entry_fresh_example :
    (k : ℤ) × ((matching_create_entry two_entries shell).1 ≡ some k)
    × All (λ n. n ≢ k) (match_ids two_entries.entries)
    × ((matching_create_entry two_entries shell).0.entries
        ≡ two_entries.entries ++ (captured_entry k shell ∷ []))
    × (match_entry_find_index_by_match_id (matching_create_entry two_entries shell).0 k ≡ some 2)
create_entry_fresh_example = create_entry_fresh two_entries shell two_entries-IsValid (omega arith)

gc-Keeps_example :
    let (after, removed) = match_entry_gc two_entries (pos 2 ∷ []) in
    Keeps (pos 2 ∷ []) two_entries.entries after.entries
    × (after.next_match_id ≡ pos 3)
    × (removed ≡ 2 - length after.entries)
gc-Keeps_example = gc-Keeps two_entries (pos 2 ∷ [])

reassign_lem_example :
    (match_entry_reassign_live_windows two_entries (shell ∷ [])).0
    ≡ record two_entries { entries = map (settled (shell ∷ [])) two_entries.entries }
reassign_lem_example = reassign_lem two_entries (shell ∷ []) (omega arith)

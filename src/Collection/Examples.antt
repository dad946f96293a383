-- ===== src/Collection/Examples.antt =====
-- A collection with two entries, one of which a slot refers to.
use cofi.Prelude.{pos, ◌≡◌, refl, true, [], ◌∷◌, none, if◌then◌else◌, arith}
use cofi.Matching.Examples.{two_entries}
use cofi.Matching.Registry.Deletion.{entry_of}
use cofi.Collection.{AppData, matching_run_gc}
use cofi.Collection.Kept.{FitsArrays, is_used, run_gc_lem}

abbrev application : AppData
application = record {
  matching = two_entries;
  slots = record { match_id = pos 2; assigned = true } ∷ [];
  names = record { records = [] };
  layouts = [];
  rules_config = [];
}

application-FitsArrays : FitsArrays application
application-FitsArrays = record {
  slots = omega arith;
  names = omega arith;
  layouts = omega arith;
  rules = omega arith;
}

run_gc_lem_example :
    entry_of (pos 1) (matching_run_gc application).0.matching.entries
    ≡ (if is_used application (pos 1) then entry_of (pos 1) two_entries.entries else none)
run_gc_lem_example = run_gc_lem application (pos 1) application-FitsArrays refl

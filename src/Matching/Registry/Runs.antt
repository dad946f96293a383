-- ===== src/Matching/Registry/Runs.antt =====
-- src/matching/match_entry.c: any sequence of calls on the registry.
use cofi.Prelude.{ℤ, ◌+◌, ◌≤◌, ◌<◌, arith, pos_part, length, List, [], ◌∷◌, Bytes, All}
use cofi.Windows.{WindowInfo}
use cofi.Matching.Registry.{
  MatchEntryManager, int_max, match_entry_delete, match_entry_delete_by_match_id, match_entry_gc,
  matching_create_entry, matching_create_pattern_entry, match_entry_reassign_live_windows,
}
use cofi.Matching.Registry.Invariant.{
  IsValid, HasId, create-IsValid, create_pattern-IsValid, delete-IsValid,
  delete_by_match_id-IsValid, gc-IsValid, reassign-IsValid,
}
use cofi.Matching.Registry.Counter.{
  create-next_match_id, create_pattern-next_match_id, delete-next_match_id,
  delete_by_match_id-next_match_id, collect-next_match_id, reassign-next_match_id,
}

-- What the program does to the registry, call by call.
pub data Call : Type 0 where
  create : WindowInfo → Call
  create_pattern : Bytes → Call
  delete : ℤ → Call
  delete_by_match_id : ℤ → Call
  collect : List ℤ → Call
  reassign : List WindowInfo → Call

-- The windows of a call come from the X server.
abbrev pub IsFromServer : Call → Type 0
IsFromServer (create w) = HasId w
IsFromServer (reassign windows) = All HasId windows
IsFromServer _ = Unit

pub run : MatchEntryManager → List Call → MatchEntryManager
run m [] = m
run m (create w ∷ calls) = run (matching_create_entry m w).0 calls
run m (create_pattern pattern ∷ calls) = run (matching_create_pattern_entry m pattern).0 calls
run m (delete index ∷ calls) = run (match_entry_delete m index) calls
run m (delete_by_match_id k ∷ calls) = run (match_entry_delete_by_match_id m k) calls
run m (collect referenced ∷ calls) = run (match_entry_gc m referenced).0 calls
run m (reassign windows ∷ calls) = run (match_entry_reassign_live_windows m windows).0 calls

-- Every call keeps the registry valid, so it is valid after any sequence of calls on a valid one, if
-- the windows of the calls have numbers other than 0, and the counter and the number of the calls
-- together are at most the largest `int`, so that the counter does not overflow.
pub run-IsValid :
    (calls : List Call) (m : MatchEntryManager)
    → IsValid m
    → All IsFromServer calls
    → pos_part m.next_match_id + length calls ≤ int_max
    → IsValid (run m calls)
unfolding run
run-IsValid [] m v h fits = v
run-IsValid (create w ∷ calls) m v h fits =
    let below : pos_part m.next_match_id < int_max = omega arith in
    run-IsValid calls (matching_create_entry m w).0 (create-IsValid m w v below h.0) h.1
      (omega (arith, fits, create-next_match_id m w v below))
run-IsValid (create_pattern pattern ∷ calls) m v h fits =
    let below : pos_part m.next_match_id < int_max = omega arith in
    run-IsValid calls (matching_create_pattern_entry m pattern).0
      (create_pattern-IsValid m pattern v below) h.1
      (omega (arith, fits, create_pattern-next_match_id m pattern v below))
run-IsValid (delete index ∷ calls) m v h fits =
    run-IsValid calls (match_entry_delete m index) (delete-IsValid m index v) h.1
      (rw (delete-next_match_id m index) (omega (arith, fits)))
run-IsValid (delete_by_match_id k ∷ calls) m v h fits =
    run-IsValid calls (match_entry_delete_by_match_id m k) (delete_by_match_id-IsValid m k v) h.1
      (rw (delete_by_match_id-next_match_id m k) (omega (arith, fits)))
run-IsValid (collect referenced ∷ calls) m v h fits =
    run-IsValid calls (match_entry_gc m referenced).0 (gc-IsValid m referenced v) h.1
      (rw (collect-next_match_id m referenced) (omega (arith, fits)))
run-IsValid (reassign windows ∷ calls) m v h fits =
    run-IsValid calls (match_entry_reassign_live_windows m windows).0
      (reassign-IsValid m windows v h.0) h.1
      (rw (reassign-next_match_id m windows) (omega (arith, fits)))

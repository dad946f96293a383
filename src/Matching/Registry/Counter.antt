-- ===== src/Matching/Registry/Counter.antt =====
-- src/matching/match_entry.c: what the calls do to the counter of numbers.
use cofi.Prelude.{
  suc, ℤ, pos, negsuc, ◌≤◌, ◌<◌, ◌≡◌, refl, ap, List, Bytes, pos_part, arith, Option-cases, inl,
  inr,
}
use cofi.Windows.{WindowInfo}
use cofi.Matching.Registry.{
  MatchEntryManager, int_max, match_entry_delete, match_entry_delete_by_match_id, match_entry_gc,
  matching_create_entry, matching_create_pattern_entry, match_entry_reassign_live_windows,
  match_entry_find_index_by_match_id,
}
use cofi.Matching.Registry.Invariant.{IsValid, allocate_of_positive}
use cofi.Matching.Registry.Deletion.{gc_lem}

-- Nothing but a capture moves the counter, and that by at most one.
pub create-next_match_id :
    (m : MatchEntryManager) (w : WindowInfo)
    → IsValid m
    → pos_part m.next_match_id < int_max
    → pos_part (matching_create_entry m w).0.next_match_id ≤ suc (pos_part m.next_match_id)
unfolding matching_create_entry
create-next_match_id m w v below =
    let (n, next, given) = allocate_of_positive m.next_match_id v.next_positive below in
    ground (arith, given)

pub create_pattern-next_match_id :
    (m : MatchEntryManager) (pattern : Bytes)
    → IsValid m
    → pos_part m.next_match_id < int_max
    → pos_part (matching_create_pattern_entry m pattern).0.next_match_id
      ≤ suc (pos_part m.next_match_id)
unfolding matching_create_pattern_entry
create_pattern-next_match_id m pattern v below =
    let (n, next, given) = allocate_of_positive m.next_match_id v.next_positive below in
    ground (arith, given)

pub delete-next_match_id :
    (m : MatchEntryManager) (index : ℤ)
    → (match_entry_delete m index).next_match_id ≡ m.next_match_id
unfolding match_entry_delete
delete-next_match_id m (pos i) = ground arith
delete-next_match_id m (negsuc i) = refl

pub delete_by_match_id-next_match_id :
    (m : MatchEntryManager) (k : ℤ)
    → (match_entry_delete_by_match_id m k).next_match_id ≡ m.next_match_id
unfolding match_entry_delete_by_match_id
delete_by_match_id-next_match_id m k =
    elim (Option-cases (match_entry_find_index_by_match_id m k)) [
      | inl e ↦ rw (e, match_entry_delete_by_match_id) refl
      | inr (i, e) ↦ rw (e, match_entry_delete_by_match_id) (delete-next_match_id m (pos i))
    ]

pub collect-next_match_id :
    (m : MatchEntryManager) (referenced : List ℤ)
    → (match_entry_gc m referenced).0.next_match_id ≡ m.next_match_id
collect-next_match_id m referenced = ap (λ r. r.0.next_match_id) (gc_lem m referenced)

pub reassign-next_match_id :
    (m : MatchEntryManager) (windows : List WindowInfo)
    → (match_entry_reassign_live_windows m windows).0.next_match_id ≡ m.next_match_id
unfolding match_entry_reassign_live_windows
reassign-next_match_id m windows = refl

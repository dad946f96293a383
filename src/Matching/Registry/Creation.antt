-- ===== src/Matching/Registry/Creation.antt =====
-- src/matching/match_entry.c: a new entry gets a fresh number and stands for the window that it is
-- captured from.
use cofi.Prelude.{
  ℕ, ℤ, pos, ◌-◌, ◌≤◌, ◌<◌, ◌≡◌, ◌≢◌, refl, true, false, List, [], ◌∷◌, ◌++◌, none, some, Bytes,
  bytes_eq_refl, copy_to, take, take_all, map, length, find_index, All, All-mono, eq_ℤ, eq_ℤ_iff,
  is_positive, leb, ◌==◌, arith, Bool-cases, inl, inr,
}
use cofi.Windows.{WindowInfo}
use cofi.Matching.Wildcard.{star}
use cofi.Matching.Wildcard.Language.{Matches, done, any, char, wildcard_match-iff-Matches}
use cofi.Matching.Registry.{
  MatchEntry, MatchEntryManager, max_windows, max_title_len, max_class_len, escape_char,
  escape_title_wildcards, anchor_allows, match_entry_matches_window, captured_entry,
  matching_create_entry, matching_create_pattern_entry, match_entry_find_index_by_match_id,
}
use cofi.Matching.Registry.Invariant.{match_ids, IsValid, IsIssued, allocate_given}

-- The strings of a window fit their buffers, with the final 0.
pub record FitsBuffers (w : WindowInfo) : Type 0 where
  pub title : length w.title < max_title_len
  pub class_name : length w.class_name < max_class_len
  pub instance_name : length w.instance_name < max_class_len
  pub type : length w.type < 16

-- An escaped title is a pattern for the title.
Matches-escaped : (s : Bytes) → Matches (map escape_char s) s
unfolding escape_char
Matches-escaped [] = done
Matches-escaped (c ∷ s) = elim (Bool-cases (c == star)) [
  | inl e ↦ rw e (any refl (Matches-escaped s))
  | inr e ↦ rw e (char (ground arith) refl (Matches-escaped s))
]

anchor_allows-copy :
    (size : ℕ) (s : Bytes) → length s < size → anchor_allows (copy_to size s) s ≡ true
unfolding anchor_allows
anchor_allows-copy size s h =
    rw (take_all (size - 1) s (omega arith)) (ground (arith, bytes_eq_refl s))

-- Whatever number it gets, the entry that is captured from a window matches that window, if the
-- window's texts fit their buffers.
pub captured_entry_matches :
    (k : ℤ) (w : WindowInfo)
    → FitsBuffers w
    → match_entry_matches_window (captured_entry k w) w ≡ true
unfolding match_entry_matches_window captured_entry escape_title_wildcards
captured_entry_matches k w fits = ground (
  arith,
  (wildcard_match-iff-Matches (map escape_char (take (max_title_len - 1) w.title)) w.title).1
      escaped,
  anchor_allows-copy max_class_len w.class_name fits.class_name,
  anchor_allows-copy max_class_len w.instance_name fits.instance_name,
  anchor_allows-copy 16 w.type fits.type,
)
  where
    escaped : Matches (map escape_char (take (max_title_len - 1) w.title)) w.title
    escaped =
        rw (take_all (max_title_len - 1) w.title (omega (arith, fits.title)))
          (Matches-escaped w.title)

find_index-snoc :
    (k : ℤ) (es : List MatchEntry) (e : MatchEntry)
    → All (λ n. n ≢ k) (match_ids es)
    → e.match_id ≡ k
    → find_index (λ f. eq_ℤ f.match_id k) (es ++ (e ∷ [])) ≡ some (length es)
unfolding find_index
find_index-snoc k [] e h same = ground (arith, eq_ℤ_iff e.match_id k)
find_index-snoc k (f ∷ es) e h same =
    ground (arith, eq_ℤ_iff f.match_id k, find_index-snoc k es e h.1 same, h.0)

-- In a valid registry that is not full, capturing a window returns a number that no entry has,
-- under which the new entry, the last one, is found.
pub create_entry_fresh :
    (m : MatchEntryManager) (w : WindowInfo)
    → IsValid m
    → length m.entries < max_windows
    → (k : ℤ) × ((matching_create_entry m w).1 ≡ some k)
      × All (λ n. n ≢ k) (match_ids m.entries)
      × ((matching_create_entry m w).0.entries ≡ m.entries ++ (captured_entry k w ∷ []))
      × (match_entry_find_index_by_match_id (matching_create_entry m w).0 k
          ≡ some (length m.entries))
unfolding matching_create_entry match_entry_find_index_by_match_id
create_entry_fresh m w v room =
    let (n, after, next, given) = allocate_given m.next_match_id v.next_positive in
    let absent : All (λ k. k ≢ pos n) (match_ids m.entries) =
      All-mono (IsIssued m.next_match_id) (λ k. k ≢ pos n) (match_ids m.entries)
        (λ k h same. ground arith) v.issued in
    let open_slot : leb max_windows (length m.entries) ≡ false = ground arith in
    let positive : is_positive (pos n) ≡ true = ground (arith, v.next_positive) in
    (
      pos n,
      rw (open_slot, given),
      absent,
      rw (open_slot, given),
      rw (open_slot, given)
          (rw positive (
            find_index-snoc (pos n) m.entries (captured_entry (pos n) w) absent
              (unfold captured_entry in refl))),
    )

-- A full registry refuses a capture and a pattern alike, and stays as it was.
pub create_full :
    (m : MatchEntryManager) (w : WindowInfo) (pattern : Bytes)
    → max_windows ≤ length m.entries
    → (matching_create_entry m w ≡ (m, none))
      × (matching_create_pattern_entry m pattern ≡ (m, none))
unfolding matching_create_entry matching_create_pattern_entry
create_full m w pattern full = (ground arith, ground arith)

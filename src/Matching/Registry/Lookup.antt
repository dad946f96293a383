-- ===== src/Matching/Registry/Lookup.antt =====
-- src/matching/match_entry.c: finding an entry by its number, for the parts that keep numbers.
use cofi.Prelude.{
  ℕ, ℤ, ◌≡◌, true, List, [], ◌∷◌, ◌++◌, Option, none, some, get_elem?, find_index, find_first-snoc,
  find_first-find_index, eq_ℤ, is_positive, if◌then◌else◌, arith, Bool-cases, Option-cases, inl,
  inr,
}
use cofi.Matching.Registry.{MatchEntry, MatchEntryManager, match_entry_find_index_by_match_id}
use cofi.Matching.Registry.Deletion.{entry_of}

pub positive_of_found :
    (m : MatchEntryManager) (k : ℤ) {i : ℕ}
    → match_entry_find_index_by_match_id m k ≡ some i
    → is_positive k ≡ true
unfolding match_entry_find_index_by_match_id
positive_of_found m k h = ground arith

abbrev pub at_index : MatchEntryManager → Option ℕ → Option MatchEntry
at_index m none = none
at_index m (some i) = get_elem? m.entries i

at_index_of_find_index :
    (m : MatchEntryManager) (k : ℤ)
    → at_index m (find_index (λ e. eq_ℤ e.match_id k) m.entries) ≡ entry_of k m.entries
at_index_of_find_index m k = elim (Option-cases (find_index (λ e. eq_ℤ e.match_id k) m.entries)) [
  | inl e ↦ ground (arith, find_first-find_index (λ (e : MatchEntry). eq_ℤ e.match_id k) m.entries)
  | inr (i, e) ↦
      ground (arith, find_first-find_index (λ (e : MatchEntry). eq_ℤ e.match_id k) m.entries)
]

-- Reading the entry at the index that is found for a number gives the first entry with that number.
pub lookup_lem :
    (m : MatchEntryManager) (k : ℤ)
    → at_index m (match_entry_find_index_by_match_id m k)
      ≡ (if is_positive k then entry_of k m.entries else none)
unfolding match_entry_find_index_by_match_id
lookup_lem m k = elim (Bool-cases (is_positive k)) [
  | inl t ↦ rw t (at_index_of_find_index m k)
  | inr f ↦ rw f
]

pub entry_of-snoc :
    (k : ℤ) (es : List MatchEntry) (x : MatchEntry) {e : MatchEntry}
    → entry_of k es ≡ some e
    → entry_of k (es ++ (x ∷ [])) ≡ some e
entry_of-snoc k es x h =
    ground (arith, find_first-snoc (λ (f : MatchEntry). eq_ℤ f.match_id k) es x)

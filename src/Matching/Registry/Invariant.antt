-- ===== src/Matching/Registry/Invariant.antt =====
-- src/matching/match_entry.c: what holds of the registry between two calls.
use mathlib.Core.List.{map-append}
use cofi.Prelude.{
  ℕ, zero, suc, ℤ, pos, negsuc, eq_ℤ, if◌then◌else◌, ◌+◌, ◌≤◌, ◌<◌, ◌≡◌, ◌≢◌, refl, ap, Bool, true,
  false, not, ◌||◌, List, [], ◌∷◌, ◌++◌, Bytes, pos_part, length, get_elem?, map, All, Distinct,
  All-append, All-remove_at, All-mono, Distinct-remove_at, Distinct-snoc, map-remove_at,
  length-append, length-remove_at, leb, ◌==◌, arith, Bool-cases, Option-cases, inl, inr, is_empty,
  find_first, All-find_first,
}
use cofi.Windows.{WindowInfo}
use cofi.Matching.Registry.{
  MatchEntry, MatchEntryManager, max_windows, int_max, match_entry_manager_init, allocate_match_id,
  match_entry_delete, match_entry_delete_by_match_id, match_entry_gc, gc_from,
  match_id_is_referenced, captured_entry, pattern_entry, matching_create_entry,
  matching_create_pattern_entry, rebind, reassign_entry, reassign_entries,
  match_entry_reassign_live_windows, match_entry_matches_window, match_entry_find_index_by_match_id,
}

abbrev pub match_ids : List MatchEntry → List ℤ
match_ids entries = map (λ e. e.match_id) entries

-- An entry counts as assigned exactly if it is bound.
abbrev pub IsBoundRight : MatchEntry → Type 0
IsBoundRight e = e.assigned ≡ not (e.bound_x11_id == 0)

-- The number is positive, and was given out before `next`.
abbrev pub IsIssued : ℤ → ℤ → Type 0
IsIssued next k = (0 < pos_part k) × (pos_part k < pos_part next)

-- At most 256 entries, whose numbers are positive, distinct and below the next one.
pub record IsValid (m : MatchEntryManager) : Type 0 where
  pub next_positive : 0 < pos_part m.next_match_id
  pub capacity : length m.entries ≤ max_windows
  pub issued : All (IsIssued m.next_match_id) (match_ids m.entries)
  pub distinct : Distinct (match_ids m.entries)
  pub bindings : All IsBoundRight m.entries

-- A window of the X server has a number that is not 0.
abbrev pub HasId : WindowInfo → Type 0
HasId w = 0 < w.id

pub init-IsValid : IsValid match_entry_manager_init
unfolding match_entry_manager_init
init-IsValid = omega arith

pub delete-IsValid :
    (m : MatchEntryManager) (index : ℤ) → IsValid m → IsValid (match_entry_delete m index)
unfolding match_entry_delete
delete-IsValid m (negsuc i) v = v
delete-IsValid m (pos i) v = elim (Bool-cases (leb (length m.entries) i)) [
  | inl e ↦ rw e v
  | inr e ↦ rw e (record {
    next_positive = v.next_positive;
    capacity = ground (arith, length-remove_at m.entries i, v.capacity);
    issued =
        rw (map-remove_at (λ (e : MatchEntry). e.match_id) m.entries i)
          (All-remove_at (IsIssued m.next_match_id) (match_ids m.entries) i v.issued);
    distinct =
        rw (map-remove_at (λ (e : MatchEntry). e.match_id) m.entries i)
          (Distinct-remove_at (match_ids m.entries) i v.distinct);
    bindings = All-remove_at IsBoundRight m.entries i v.bindings;
  })
]

gc_from-IsValid :
    (rounds : ℕ) (m : MatchEntryManager) (referenced : List ℤ) (i removed : ℕ)
    → IsValid m
    → IsValid (gc_from rounds m referenced i removed).0
unfolding gc_from
gc_from-IsValid zero m referenced i removed v = v
gc_from-IsValid (suc rounds) m referenced i removed v =
    elim (Option-cases (get_elem? m.entries i)) [
      | inl e ↦ rw (e, gc_from) v
      | inr (x, e) ↦ elim (Bool-cases (match_id_is_referenced referenced x.match_id)) [
        | inl r ↦ rw (e, r, gc_from) (gc_from-IsValid rounds m referenced (i + 1) removed v)
        | inr r ↦
            rw (e, r, gc_from)
              (gc_from-IsValid rounds (match_entry_delete m (pos i)) referenced i (removed + 1)
                (delete-IsValid m (pos i) v))
      ]
    ]

pub gc-IsValid :
    (m : MatchEntryManager) (referenced : List ℤ)
    → IsValid m
    → IsValid (match_entry_gc m referenced).0
unfolding match_entry_gc
gc-IsValid m referenced v = gc_from-IsValid (length m.entries) m referenced 0 0 v

-- An entry under the next number, put behind the others.
append-IsValid :
    (m : MatchEntryManager) (e : MatchEntry) (n : ℕ)
    → IsValid m
    → length m.entries < max_windows
    → m.next_match_id ≡ pos n
    → e.match_id ≡ pos n
    → IsBoundRight e
    → IsValid (record { entries = m.entries ++ (e ∷ []); next_match_id = pos (n + 1) })
append-IsValid m e n v room next same right = record {
  next_positive = omega arith;
  capacity = omega (arith, length-append m.entries (e ∷ []));
  issued = rw (map-append (λ (x : MatchEntry). x.match_id) m.entries (e ∷ [])) (
      All-append (IsIssued (pos (n + 1))) (match_ids m.entries) (e.match_id ∷ []) older
        (newest, tt));
  distinct =
      rw (map-append (λ (x : MatchEntry). x.match_id) m.entries (e ∷ []))
        (Distinct-snoc (match_ids m.entries) e.match_id v.distinct fresh);
  bindings = All-append IsBoundRight m.entries (e ∷ []) v.bindings (right, tt);
}
  where
    newest : IsIssued (pos (n + 1)) e.match_id
    newest = ground (arith, v.next_positive)

    older : All (IsIssued (pos (n + 1))) (match_ids m.entries)
    older =
        All-mono (IsIssued m.next_match_id) (IsIssued (pos (n + 1))) (match_ids m.entries)
          (λ k h. ground arith) v.issued

    fresh : All (λ k. k ≢ e.match_id) (match_ids m.entries)
    fresh =
        All-mono (IsIssued m.next_match_id) (λ k. k ≢ e.match_id) (match_ids m.entries)
          (λ k h same_number. ground arith) v.issued

-- A positive number is given out as it is.
pub allocate_given :
    (next : ℤ)
    → 0 < pos_part next
    → (n : ℕ) × (after : ℤ) × (next ≡ pos n) × (allocate_match_id next ≡ (pos n, after))
unfolding allocate_match_id
allocate_given (pos n) h =
    (n, (if eq_ℤ (pos n) (pos int_max) then negsuc int_max else pos (n + 1)), refl, ground arith)
allocate_given (negsuc n) h = absurd (omega arith)

-- Below the largest `int`, the next number follows it.
pub allocate_of_positive :
    (next : ℤ)
    → 0 < pos_part next
    → pos_part next < int_max
    → (n : ℕ) × (next ≡ pos n) × (allocate_match_id next ≡ (pos n, pos (n + 1)))
unfolding allocate_match_id
allocate_of_positive (pos n) h below =
    let before : eq_ℤ (pos n) (pos int_max) ≡ false = ground arith in
    (n, refl, ground (arith, before))
allocate_of_positive (negsuc n) h below = absurd (omega arith)

captured-IsBoundRight : (k : ℤ) (w : WindowInfo) → HasId w → IsBoundRight (captured_entry k w)
unfolding captured_entry
captured-IsBoundRight k w h = ground arith

pub create-IsValid :
    (m : MatchEntryManager) (w : WindowInfo)
    → IsValid m
    → pos_part m.next_match_id < int_max
    → HasId w
    → IsValid (matching_create_entry m w).0
unfolding matching_create_entry
create-IsValid m w v below h = elim (Bool-cases (leb max_windows (length m.entries))) [
  | inl full ↦ rw full v
  | inr room ↦
      let (n, next, given) = allocate_of_positive m.next_match_id v.next_positive below in
      rw (room, given)
        (append-IsValid m (captured_entry (pos n) w) n v (ground arith) next
          (unfold captured_entry in refl) (captured-IsBoundRight (pos n) w h))
]

pub create_pattern-IsValid :
    (m : MatchEntryManager) (pattern : Bytes)
    → IsValid m
    → pos_part m.next_match_id < int_max
    → IsValid (matching_create_pattern_entry m pattern).0
unfolding matching_create_pattern_entry
create_pattern-IsValid m pattern v below =
    elim (Bool-cases (is_empty pattern || leb max_windows (length m.entries))) [
      | inl refused ↦ rw refused v
      | inr room ↦
          let (n, next, given) = allocate_of_positive m.next_match_id v.next_positive below in
          rw (room, given)
            (append-IsValid m (pattern_entry (pos n) pattern) n v (ground arith) next
              (unfold pattern_entry in refl) (unfold pattern_entry in refl))
    ]

-- Rebinding leaves the numbers alone.
rebind-match_id :
    (windows : List WindowInfo) (e : MatchEntry) (changed : Bool)
    → (rebind windows e changed).0.match_id ≡ e.match_id
unfolding rebind
rebind-match_id windows e changed = ground arith

reassign_entry-match_id :
    (windows : List WindowInfo) (e : MatchEntry)
    → (reassign_entry windows e).0.match_id ≡ e.match_id
unfolding reassign_entry
reassign_entry-match_id windows e =
    ground (arith, rebind-match_id windows e true, rebind-match_id windows e false)

pub reassign_entries-match_ids :
    (windows : List WindowInfo) (es : List MatchEntry)
    → match_ids (reassign_entries windows es).0 ≡ match_ids es
unfolding reassign_entries
reassign_entries-match_ids windows [] = refl
reassign_entries-match_ids windows (e ∷ es) =
    rw (reassign_entry-match_id windows e, reassign_entries-match_ids windows es)

rebind-IsBoundRight :
    (windows : List WindowInfo) (e : MatchEntry) (changed : Bool)
    → All HasId windows
    → IsBoundRight (rebind windows e changed).0
unfolding rebind
rebind-IsBoundRight windows e changed h =
    elim (Option-cases (find_first (λ w. match_entry_matches_window e w) windows)) [
      | inl f ↦ rw (f, rebind)
      | inr (w, f) ↦
          let live : 0 < w.id =
            All-find_first HasId (λ w. match_entry_matches_window e w) windows h f in
          rw (f, rebind) (ground arith)
    ]

reassign_entry-IsBoundRight :
    (windows : List WindowInfo) (e : MatchEntry)
    → All HasId windows
    → IsBoundRight e
    → IsBoundRight (reassign_entry windows e).0
unfolding reassign_entry
reassign_entry-IsBoundRight windows e h right =
    ground (arith, rebind-IsBoundRight windows e false h, rebind-IsBoundRight windows e true h)

reassign_entries-length :
    (windows : List WindowInfo) (es : List MatchEntry)
    → length (reassign_entries windows es).0 ≡ length es
unfolding reassign_entries
reassign_entries-length windows [] = refl
reassign_entries-length windows (e ∷ es) = ap suc (reassign_entries-length windows es)

reassign_entries-IsBoundRight :
    (windows : List WindowInfo) (es : List MatchEntry)
    → All HasId windows
    → All IsBoundRight es
    → All IsBoundRight (reassign_entries windows es).0
unfolding reassign_entries
reassign_entries-IsBoundRight windows [] h rights = tt
reassign_entries-IsBoundRight windows (e ∷ es) h rights = (
  reassign_entry-IsBoundRight windows e h rights.0,
  reassign_entries-IsBoundRight windows es h rights.1,
)

pub reassign-IsValid :
    (m : MatchEntryManager) (windows : List WindowInfo)
    → IsValid m
    → All HasId windows
    → IsValid (match_entry_reassign_live_windows m windows).0
unfolding match_entry_reassign_live_windows
reassign-IsValid m windows v h = record {
  next_positive = v.next_positive;
  capacity = omega (arith, reassign_entries-length windows m.entries, v.capacity);
  issued = rw (reassign_entries-match_ids windows m.entries) v.issued;
  distinct = rw (reassign_entries-match_ids windows m.entries) v.distinct;
  bindings = reassign_entries-IsBoundRight windows m.entries h v.bindings;
}

pub delete_by_match_id-IsValid :
    (m : MatchEntryManager) (k : ℤ) → IsValid m → IsValid (match_entry_delete_by_match_id m k)
unfolding match_entry_delete_by_match_id
delete_by_match_id-IsValid m k v = elim (Option-cases (match_entry_find_index_by_match_id m k)) [
  | inl e ↦ rw (e, match_entry_delete_by_match_id) v
  | inr (i, e) ↦ rw (e, match_entry_delete_by_match_id) (delete-IsValid m (pos i) v)
]

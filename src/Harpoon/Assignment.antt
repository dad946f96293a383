-- ===== src/Harpoon/Assignment.antt =====
-- src/harpoon/harpoon.c: what assigning and freeing a slot do to the windows of the slots.
use cofi.Prelude.{
  none, ◌==◌, ==_iff, sym, if◌then◌else◌, ℕ, ℤ, pos, ◌<◌, ◌≡◌, ◌≢◌, refl, ◌∙◌, true, false, [], ◌∷◌,
  ◌++◌, some, length, get_elem?, set, is_positive, get_elem?-append, get_elem?-set_self,
  get_elem?-set_ne, leb, arith, Bool-cases, Option-cases, inl, inr,
}
use cofi.Glib.{Glib}
use cofi.Windows.{WindowInfo}
use cofi.Matching.Registry.{
  MatchEntry, MatchEntryManager, max_windows, captured_entry, matching_create_entry,
  match_entry_find_index_by_match_id,
}
use cofi.Matching.Registry.Invariant.{IsValid, HasId}
use cofi.Matching.Registry.Creation.{create_entry_fresh}
use cofi.Matching.Registry.Lookup.{positive_of_found, at_index, lookup_lem, entry_of-snoc}
use cofi.Slots.{max_harpoon_slots}
use cofi.Harpoon.{
  HarpoonSlot, Shared, HarpoonManager, free_slot, put_slot, assign_shared, assign_window_to_slot,
  unassign_slot, entry_under, resolve_slot_entry, get_slot_window, is_slot_assigned,
}

-- The manager is set up: its pointers point to a valid registry, and it has its 36 slots.
pub record IsReady (h : HarpoonManager) (s : Shared) : Type 0 where
  pub set_up : h.shared ≡ some s
  pub registry : IsValid s.matching
  pub slots : length h.slots ≡ max_harpoon_slots

entry_under-at_index :
    (m : MatchEntryManager) (k : ℤ)
    → entry_under m k ≡ at_index m (match_entry_find_index_by_match_id m k)
unfolding entry_under
entry_under-at_index m k = ground arith

-- What an entry was found under, it is found under with another entry behind.
entry_under-snoc :
    (m m' : MatchEntryManager) (x : MatchEntry) (k : ℤ) {e : MatchEntry}
    → m'.entries ≡ m.entries ++ (x ∷ [])
    → entry_under m k ≡ some e
    → entry_under m' k ≡ some e
entry_under-snoc m m' x k {e} longer h = elim (Bool-cases (is_positive k)) [
  | inr f ↦ absurd (ground (arith, entry_under-at_index m k, lookup_lem m k))
  | inl t ↦
      entry_under-at_index m' k
      ∙ lookup_lem m' k
      ∙ (rw (t, longer)
          (entry_of-snoc k m.entries x (ground (arith, entry_under-at_index m k, lookup_lem m k))))
]

-- The entry of a slot that holds a number.
resolve_at :
    (h : HarpoonManager) (s : Shared) (i : ℕ) (k : ℤ)
    → h.shared ≡ some s
    → i < max_harpoon_slots
    → get_elem? h.slots i ≡ some (record { match_id = k; assigned = true })
    → is_positive k ≡ true
    → resolve_slot_entry h (pos i) ≡ entry_under s.matching k
unfolding resolve_slot_entry
resolve_at h s i k up hi held t = ground arith

module _ (g : Glib) (h : HarpoonManager) (s : Shared) (i : ℕ) (w : WindowInfo) (ready : IsReady h s)
    (hi : i < max_harpoon_slots) (room : length s.matching.entries < max_windows) where
  -- The number of the new entry, and the manager that holds it.
  assigned_form :
      (k : ℤ) × ((matching_create_entry s.matching w).1 ≡ some k)
      × (is_positive k ≡ true)
      × ((matching_create_entry s.matching w).0.entries
          ≡ s.matching.entries ++ (captured_entry k w ∷ []))
      × (entry_under (matching_create_entry s.matching w).0 k ≡ some (captured_entry k w))
      × (assign_window_to_slot g h (pos i) w
          ≡ put_slot g
              (record h {
                shared = some (record s { matching = (matching_create_entry s.matching w).0 });
              })
              i
              k)
  unfolding assign_window_to_slot assign_shared entry_under
  assigned_form =
      let (k, given, absent, longer, found) = create_entry_fresh s.matching w ready.registry room in
      let t : is_positive k ≡ true =
        positive_of_found (matching_create_entry s.matching w).0 k found in
      (
        k,
        given,
        t,
        longer,
        rw (found, entry_under)
            (rw longer (get_elem?-append s.matching.entries (captured_entry k w) [])),
        rw (leb_false, ready.set_up) (rw (given, assign_shared) (rw t)),
      )
    where
      leb_false : leb max_harpoon_slots i ≡ false
      leb_false = ground arith

-- The manager after the assignment, with the number written out.
abbrev with_slot : Glib → HarpoonManager → Shared → ℕ → WindowInfo → ℤ → HarpoonManager
with_slot g h s i w k =
    put_slot g
      (record h { shared = some (record s { matching = (matching_create_entry s.matching w).0 }) })
      i k

put_slot-slots :
    (g : Glib) (h : HarpoonManager) (i : ℕ) (k : ℤ)
    → ((put_slot g h i k).slots ≡ set h.slots i (record { match_id = k; assigned = true }))
      × ((put_slot g h i k).shared ≡ h.shared)
unfolding put_slot
put_slot-slots g h i k = (refl, refl)

resolve_kept :
    (h h' : HarpoonManager) (s s' : Shared) (x : MatchEntry) (j : ℕ) {e : MatchEntry}
    → h.shared ≡ some s
    → h'.shared ≡ some s'
    → s'.matching.entries ≡ s.matching.entries ++ (x ∷ [])
    → get_elem? h'.slots j ≡ get_elem? h.slots j
    → resolve_slot_entry h (pos j) ≡ some e
    → resolve_slot_entry h' (pos j) ≡ some e
unfolding resolve_slot_entry
resolve_kept h h' s s' x j {e} up up' longer same found =
    elim (Option-cases (get_elem? h.slots j)) [
      | inl e ↦ absurd (ground arith)
      | inr (y, held) ↦
          ground (arith, entry_under-snoc s.matching s'.matching x y.match_id {e = e} longer)
    ]

get_of_resolved :
    (h : HarpoonManager) (slot : ℤ) (e : MatchEntry)
    → resolve_slot_entry h slot ≡ some e
    → e.assigned ≡ true
    → 0 < e.bound_x11_id
    → get_slot_window h slot ≡ (e.bound_x11_id, h)
unfolding get_slot_window
get_of_resolved h slot e found a b = ground arith

assigned_of_held :
    (h : HarpoonManager) (i : ℕ) (x : HarpoonSlot)
    → i < max_harpoon_slots
    → get_elem? h.slots i ≡ some x
    → is_slot_assigned h (pos i) ≡ x.assigned
unfolding is_slot_assigned
assigned_of_held h i x hi held = ground arith

-- What holds after a window is assigned, of its slot and of the others.
assigned_lem :
    (g : Glib) (h : HarpoonManager) (s : Shared) (i : ℕ) (w : WindowInfo)
    → IsReady h s
    → i < max_harpoon_slots
    → length s.matching.entries < max_windows
    → HasId w
    → let h' = assign_window_to_slot g h (pos i) w in
      (is_slot_assigned h' (pos i) ≡ true)
      × (get_slot_window h' (pos i) ≡ (w.id, h'))
      × ((j : ℕ) (e : MatchEntry)
          → i ≢ j
          → resolve_slot_entry h (pos j) ≡ some e
          → resolve_slot_entry h' (pos j) ≡ some e)
unfolding captured_entry
assigned_lem g h s i w ready hi room live =
    let (k, given, t, longer, found, form) = assigned_form g h s i w ready hi room in
    let s' : Shared = record s { matching = (matching_create_entry s.matching w).0 } in
    let h' = with_slot g h s i w k in
    let (slots, up') = put_slot-slots g (record h { shared = some s' }) i k in
    let held : get_elem? h'.slots i ≡ some (record { match_id = k; assigned = true }) = rw slots (
      get_elem?-set_self h.slots i (record { match_id = k; assigned = true })
        (omega (arith, ready.slots))) in
    let resolved : resolve_slot_entry h' (pos i) ≡ some (captured_entry k w) =
      resolve_at h' s' i k up' hi held t ∙ found in
    rw form (
      assigned_of_held h' i (record { match_id = k; assigned = true }) hi held,
      get_of_resolved h' (pos i) (captured_entry k w) resolved refl live,
      (λ j e ne before.
          resolve_kept h h' s s' (captured_entry k w) j ready.set_up up' longer
            (rw slots (get_elem?-set_ne h.slots i j (record { match_id = k; assigned = true }) ne))
            before),
    )

-- If the manager is set up and the registry has room, then after a window is assigned to a slot the
-- slot is assigned and answers with that window.
pub assign_window_lem :
    (g : Glib) (h : HarpoonManager) (s : Shared) (i : ℕ) (w : WindowInfo)
    → IsReady h s
    → i < max_harpoon_slots
    → length s.matching.entries < max_windows
    → HasId w
    → let h' = assign_window_to_slot g h (pos i) w in
      (is_slot_assigned h' (pos i) ≡ true) × (get_slot_window h' (pos i) ≡ (w.id, h'))
assign_window_lem g h s i w ready hi room live =
    let all = assigned_lem g h s i w ready hi room live in (all.0, all.1)

-- If the manager is set up and the registry has room, then after a window is assigned to a slot every
-- other slot that had an entry has it still.
pub assign_others_lem :
    (g : Glib) (h : HarpoonManager) (s : Shared) (i j : ℕ) (w : WindowInfo) (e : MatchEntry)
    → IsReady h s
    → i < max_harpoon_slots
    → length s.matching.entries < max_windows
    → HasId w
    → i ≢ j
    → resolve_slot_entry h (pos j) ≡ some e
    → resolve_slot_entry (assign_window_to_slot g h (pos i) w) (pos j) ≡ some e
assign_others_lem g h s i j w e ready hi room live ne before =
    (assigned_lem g h s i w ready hi room live).2 j e ne before

-- If the manager is set up, then after a slot is freed it is not assigned, answers with no window and
-- has no entry, and every other slot has the entry, or none, that it had.
pub unassign_lem :
    (h : HarpoonManager) (s : Shared) (i j : ℕ)
    → IsReady h s
    → i < max_harpoon_slots
    → let h' = unassign_slot h (pos i) in
      (is_slot_assigned h' (pos i) ≡ false)
      × (get_slot_window h' (pos i) ≡ (0, h'))
      × (resolve_slot_entry h' (pos j) ≡ (if i == j then none else resolve_slot_entry h (pos j)))
unfolding unassign_slot is_slot_assigned get_slot_window resolve_slot_entry
unassign_lem h s i j ready hi = (
  ground (arith, get_elem?-set_self h.slots i free_slot (omega (arith, ready.slots))),
  ground (arith, ready.set_up, get_elem?-set_self h.slots i free_slot (omega (arith, ready.slots))),
  elim (Bool-cases (i == j)) [
    | inl same ↦
        rw (same, sym ((==_iff i j).0 same))
          (ground (
            arith,
            ready.set_up,
            get_elem?-set_self h.slots i free_slot (omega (arith, ready.slots)),
          ))
    | inr other ↦
        rw other (ground (arith, get_elem?-set_ne h.slots i j free_slot (λ e. ground arith)))
  ],
)

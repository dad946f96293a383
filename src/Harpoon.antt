-- ===== src/Harpoon.antt =====
-- src/harpoon/harpoon.c and harpoon_config.c: windows assigned to slots. A slot holds the number of a
-- match entry; the store holds the same number as text. `shared` is what the three pointers of the
-- manager point to, and `none` before they are set.
pub mod Decimal
pub mod Assignment
pub mod Persistence
mod Examples
use cofi.Prelude.{
  ℕ, zero, suc, ℤ, pos, negsuc, ◌+◌, Bool, true, false, not, ◌&&◌, List, [], ◌∷◌, Option, none,
  some, Bytes, codes, is_positive, length, get_elem?, set, leb, ◌==◌, if◌then◌else◌,
}
use cofi.Glib.{Glib}
use cofi.Windows.{WindowInfo}
use cofi.Matching.Registry.{
  MatchEntry, MatchEntryManager, matching_create_entry, match_entry_find_index_by_match_id,
  match_entry_reassign_live_windows,
}
use cofi.Slots.{
  SlotStore, slot_store_init, slot_key_from_index, slot_assign, slot_clear, slot_lookup,
  max_harpoon_slots,
}
use cofi.Harpoon.Decimal.{print_int, read_int}

pub record HarpoonSlot : Type 0 where
  pub match_id : ℤ
  pub assigned : Bool

pub record Shared : Type 0 where
  pub matching : MatchEntryManager
  pub windows : List WindowInfo

pub record HarpoonManager : Type 0 where
  pub store : SlotStore
  pub slots : List HarpoonSlot
  pub shared : Option Shared

abbrev pub harpoon_tab_id : Bytes
harpoon_tab_id = codes "windows"

abbrev pub serialize_window_slot_payload : HarpoonSlot → Bytes
serialize_window_slot_payload slot = print_int slot.match_id

-- The slot, and whether it is assigned.
abbrev pub deserialize_window_slot_payload : Bytes → HarpoonSlot × Bool
deserialize_window_slot_payload payload =
    let k = read_int payload in (record { match_id = k; assigned = is_positive k }, is_positive k)

abbrev pub free_slot : HarpoonSlot
free_slot = record { match_id = pos 0; assigned = false }

abbrev pub all_free : ℕ → List HarpoonSlot
all_free zero = []
all_free (suc n) = free_slot ∷ all_free n

pub init_harpoon_manager : HarpoonManager
init_harpoon_manager = record {
  store = slot_store_init;
  slots = all_free max_harpoon_slots;
  shared = none;
}

-- The slot and the store take the number of the new entry.
unfoldable pub put_slot : Glib → HarpoonManager → ℕ → ℤ → HarpoonManager
put_slot g h slot k =
    let filled : HarpoonSlot = record { match_id = k; assigned = true } in
    record h {
      slots = set h.slots slot filled;
      store =
          slot_assign g h.store (slot_key_from_index (pos slot)) harpoon_tab_id
            (serialize_window_slot_payload filled);
    }

unfoldable pub assign_shared : Glib → HarpoonManager → ℕ → WindowInfo → Shared → HarpoonManager
assign_shared g h slot w s =
    let (m, created) = matching_create_entry s.matching w in
    let h' = record h { shared = some (record s { matching = m }) } in
    (elim created [ none ↦ h' | some k ↦ if is_positive k then put_slot g h' slot k else h' ])

pub assign_window_to_slot : Glib → HarpoonManager → ℤ → WindowInfo → HarpoonManager
assign_window_to_slot g h (negsuc slot) w = h
assign_window_to_slot g h (pos slot) w =
    if leb max_harpoon_slots slot
    then h
    else (elim h.shared [ none ↦ h | some s ↦ assign_shared g h slot w s ])

pub unassign_slot : HarpoonManager → ℤ → HarpoonManager
unassign_slot h (negsuc slot) = h
unassign_slot h (pos slot) = if leb max_harpoon_slots slot then h else record h {
  slots = set h.slots slot free_slot;
  store = slot_clear h.store harpoon_tab_id (slot_key_from_index (pos slot));
}

-- The entry that a number stands for.
unfoldable pub entry_under : MatchEntryManager → ℤ → Option MatchEntry
entry_under m k = elim (match_entry_find_index_by_match_id m k) [
  | none ↦ none
  | some i ↦ get_elem? m.entries i
]

unfoldable pub resolve_slot_entry : HarpoonManager → ℤ → Option MatchEntry
resolve_slot_entry h (negsuc slot) = none
resolve_slot_entry h (pos slot) = if leb max_harpoon_slots slot then none else (elim h.shared [
  | none ↦ none
  | some s ↦ elim (get_elem? h.slots slot) [
    | none ↦ none
    | some x ↦
        if x.assigned && is_positive x.match_id then entry_under s.matching x.match_id else none
  ]
])

abbrev bound_window : Option MatchEntry → ℕ
bound_window none = 0
bound_window (some e) = if e.assigned then e.bound_x11_id else 0

-- The pass of rebinding, and the window that the slot's entry has then. The entry that the pointer
-- of the code reads after the pass is the one at the same place.
unfoldable pub get_after_rebinding : HarpoonManager → ℤ → Shared → ℕ × HarpoonManager
get_after_rebinding h slot s =
    let m = (match_entry_reassign_live_windows s.matching s.windows).0 in
    let h' = record h { shared = some (record s { matching = m }) } in
    (bound_window (resolve_slot_entry h' slot), h')

-- The window, 0 for none, and the manager: a slot whose entry is not bound has the registry rebound.
pub get_slot_window : HarpoonManager → ℤ → ℕ × HarpoonManager
get_slot_window h slot = elim (resolve_slot_entry h slot) [
  | none ↦ (0, h)
  | some e ↦
      if e.assigned && not (e.bound_x11_id == 0)
      then (e.bound_x11_id, h)
      else (elim h.shared [ none ↦ (0, h) | some s ↦ get_after_rebinding h slot s ])
]

-- The loop of `get_window_slot` from a slot on.
unfoldable pub window_slot_from : ℕ → ℕ → HarpoonManager → ℕ → Option ℕ
window_slot_from zero slot h id = none
window_slot_from (suc rounds) slot h id =
    let rest = window_slot_from rounds (suc slot) h id in
    (elim (resolve_slot_entry h (pos slot)) [
      | none ↦ rest
      | some e ↦ if e.assigned && (e.bound_x11_id == id) then some slot else rest
    ])

pub get_window_slot : HarpoonManager → ℕ → Option ℕ
get_window_slot h id =
    if id == 0
    then none
    else (elim h.shared [ none ↦ none | some s ↦ window_slot_from max_harpoon_slots 0 h id ])

pub is_slot_assigned : HarpoonManager → ℤ → Bool
is_slot_assigned h (negsuc slot) = false
is_slot_assigned h (pos slot) =
    if leb max_harpoon_slots slot
    then false
    else (elim (get_elem? h.slots slot) [ none ↦ false | some x ↦ x.assigned ])

-- harpoon_config.c: one slot is read from the store.
unfoldable pub hydrate_slot : SlotStore → List HarpoonSlot → ℕ → List HarpoonSlot
hydrate_slot store slots i = elim (slot_lookup store harpoon_tab_id (slot_key_from_index (pos i))) [
  | none ↦ slots
  | some payload ↦
      let (slot, ok) = deserialize_window_slot_payload payload in
      if ok then set slots i slot else slots
]

unfoldable pub hydrate_from : ℕ → ℕ → SlotStore → List HarpoonSlot → List HarpoonSlot
hydrate_from zero i store slots = slots
hydrate_from (suc rounds) i store slots =
    hydrate_from rounds (suc i) store (hydrate_slot store slots i)

pub hydrate_window_slots_from_store : HarpoonManager → HarpoonManager
hydrate_window_slots_from_store h = record h {
  slots = hydrate_from max_harpoon_slots 0 h.store h.slots;
}

-- harpoon_config.c: one slot is written to the store.
unfoldable pub sync_slot : Glib → List HarpoonSlot → SlotStore → ℕ → SlotStore
sync_slot g slots store i = elim (get_elem? slots i) [
  | none ↦ store
  | some slot ↦
      if slot.assigned
      then slot_assign g store (slot_key_from_index (pos i)) harpoon_tab_id
          (serialize_window_slot_payload slot)
      else (elim (slot_lookup store harpoon_tab_id (slot_key_from_index (pos i))) [
        | none ↦ store
        | some payload ↦ slot_clear store harpoon_tab_id (slot_key_from_index (pos i))
      ])
]

unfoldable pub sync_from : Glib → ℕ → ℕ → List HarpoonSlot → SlotStore → SlotStore
sync_from g zero i slots store = store
sync_from g (suc rounds) i slots store =
    sync_from g rounds (suc i) slots (sync_slot g slots store i)

pub sync_window_slots_to_store : Glib → HarpoonManager → SlotStore → SlotStore
sync_window_slots_to_store g h store = sync_from g max_harpoon_slots 0 h.slots store

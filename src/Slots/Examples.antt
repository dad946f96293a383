-- ===== src/Slots/Examples.antt =====
-- Runs of the slot store.
use cofi.Prelude.{
  ◌≡◌, ◌+◌, refl, true, [], ◌∷◌, none, some, codes, length, arith, bytes_eq, find_index,
}
use cofi.Glib.{plain_glib}
use cofi.Slots.{
  SlotStore, slot_index_from_key, slot_key_from_index, slot_lookup, slot_assign, slot_clear,
  find_entry,
}
use cofi.Slots.Laws.{Storable, key_of, lookup-assign}
use cofi.Slots.Clearing.{Unique, lookup-clear}
use cofi.Slots.Shadowing.{capital_assign_shadowed}

abbrev one_slot : SlotStore
one_slot = record {
  entries =
      record { slot_key = 97; tab_id = codes "windows"; payload = codes "7"; assigned = true } ∷ [];
  capacity = 32;
}

one_slot-Unique : Unique one_slot.entries
one_slot-Unique = (tt, refl, tt)

storable : Storable (codes "windows") (codes "8")
storable = record { tab_fits = omega arith; payload_fits = omega arith; payload_there = refl }

lookup-assign_example :
    slot_lookup
      (slot_assign plain_glib one_slot (key_of 10) (codes "windows") (codes "8"))
      (codes "windows")
      (key_of 10)
    ≡ some (codes "8")
unfolding bytes_eq
lookup-assign_example =
    lookup-assign plain_glib one_slot 10 10 (codes "windows") (codes "8") (codes "windows")
      (omega arith) (omega arith) storable

lookup-clear_example :
    slot_lookup (slot_clear one_slot (codes "windows") (key_of 10)) (codes "windows") (key_of 10)
    ≡ none
unfolding bytes_eq
lookup-clear_example =
    lookup-clear one_slot 10 10 (codes "windows") (codes "windows") (omega arith) (omega arith)
      one_slot-Unique

capital_assign_shadowed_example :
    let store' = slot_assign plain_glib one_slot 65 (codes "windows") (codes "8") in
    (slot_lookup store' (codes "windows") 65 ≡ some (codes "7"))
    × (slot_lookup store' (codes "windows") (key_of 10) ≡ some (codes "7"))
    × (length store'.entries ≡ length one_slot.entries + 1)
unfolding slot_lookup find_entry find_index bytes_eq slot_index_from_key slot_key_from_index
capital_assign_shadowed_example =
    capital_assign_shadowed plain_glib one_slot 65 10 (codes "windows") (codes "8") (codes "7")
      (omega arith, omega arith, omega arith) refl refl refl

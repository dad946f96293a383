-- ===== src/Slots/Shadowing.antt =====
-- src/core/slot_store/slot_store.c: what an assignment by a capital letter does.
use cofi.Prelude.{
  ℕ, ◌+◌, ◌<◌, ◌≤◌, ◌≡◌, ◌∙◌, Bool, false, List, [], ◌∷◌, ◌++◌, none, some, Bytes, is_empty,
  find_first, find_first-snoc, length-append, set-snoc, arith, length,
}
use cofi.Glib.{Glib}
use cofi.Slots.{
  SlotEntry, SlotStore, max_harpoon_slots, slot_index_from_key, is_entry_of, find_entry, put_entry,
  filled_entry, slot_assign, slot_lookup,
}
use cofi.Slots.Keys.{index_of_key}
use cofi.Slots.Laws.{key_of, payload_of, lookup_at}

-- The slot of a capital letter.
abbrev pub IsCapitalOf : ℕ → ℕ → Type 0
IsCapitalOf key i = (10 ≤ i) × (i < max_harpoon_slots) × (key ≡ 55 + i)

capital_index : (key i : ℕ) → IsCapitalOf key i → slot_index_from_key key ≡ some i
unfolding slot_index_from_key
capital_index key i h = ground arith

found_before :
    (p : SlotEntry → Bool) (es : List SlotEntry) (v : SlotEntry) {t : Bytes}
    → payload_of (find_first p es) ≡ some t
    → payload_of (find_first p (es ++ (v ∷ []))) ≡ some t
found_before p es v h = ground (arith, find_first-snoc p es v)

-- A capital letter is looked up as the letter.
lookup_capital :
    (store : SlotStore) (tab : Bytes) (key i : ℕ)
    → IsCapitalOf key i
    → slot_lookup store tab key ≡ slot_lookup store tab (key_of i)
unfolding slot_lookup
lookup_capital store tab key i c = rw (capital_index key i c, index_of_key i c.1, slot_lookup)

assign_capital :
    (g : Glib) (store : SlotStore) (key i : ℕ) (tab payload : Bytes)
    → IsCapitalOf key i
    → is_empty payload ≡ false
    → find_entry store tab key ≡ none
    → (slot_assign g store key tab payload).entries
      ≡ store.entries ++ (filled_entry g i tab payload ∷ [])
unfolding slot_assign put_entry
assign_capital g store key i tab payload c there absent =
    rw (capital_index key i c, slot_assign)
      (rw (there, absent, put_entry)
        (set-snoc store.entries
          (record { slot_key = 0; tab_id = []; payload = []; assigned = false })
          (filled_entry g i tab payload)))

-- If a slot has a text under its letter and no entry has the capital as its key, then an assignment
-- by the capital does not replace the text: the slot's text, asked for by the capital or by the
-- letter, stays the one from before, and the store has one entry more.
pub capital_assign_shadowed :
    (g : Glib) (store : SlotStore) (key i : ℕ) (tab payload old : Bytes)
    → IsCapitalOf key i
    → is_empty payload ≡ false
    → find_entry store tab key ≡ none
    → slot_lookup store tab (key_of i) ≡ some old
    → let store' = slot_assign g store key tab payload in
      (slot_lookup store' tab key ≡ some old)
      × (slot_lookup store' tab (key_of i) ≡ some old)
      × (length store'.entries ≡ length store.entries + 1)
capital_assign_shadowed g store key i tab payload old c there absent kept = (
  lookup_capital store' tab key i c ∙ stays,
  stays,
  rw (assign_capital g store key i tab payload c there absent)
      (length-append store.entries (filled ∷ []) ∙ omega arith),
)
  where
    store' : SlotStore
    store' = slot_assign g store key tab payload

    filled : SlotEntry
    filled = filled_entry g i tab payload

    stays : slot_lookup store' tab (key_of i) ≡ some old
    stays =
        lookup_at store' tab i c.1
        ∙ (rw (assign_capital g store key i tab payload c there absent) (
            found_before (is_entry_of tab (key_of i)) store.entries filled
              (rw (lookup_at store tab i c.1) at kept)))

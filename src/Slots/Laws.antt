-- ===== src/Slots/Laws.antt =====
-- src/core/slot_store/slot_store.c: the store as a map from tab and key to text.
use cofi.Prelude.{
  ℕ, pos, ◌<◌, ◌≡◌, refl, ap, ◌∙◌, inl, inr, Bool, true, false, ◌&&◌, List, [], ◌∷◌, ◌++◌, Option,
  none, some, Bytes, bytes_eq, bytes_eq_iff, bytes_eq_refl, is_empty, length, find_index,
  find_first, find_first-set_self, find_first-set_ne, find_first-snoc, find_first_of_none, set-snoc,
  ◌==◌, ==_refl, ==_iff, if◌then◌else◌, arith, Bool-cases, Option-cases,
}
use cofi.Glib.{Glib}
use cofi.Slots.{
  SlotEntry, SlotStore, max_harpoon_slots, slot_key_from_index, is_entry_of, find_entry, put_entry,
  filled_entry, slot_assign, slot_lookup,
}
use cofi.Slots.Keys.{index_of_key}

-- The key of a slot.
abbrev pub key_of : ℕ → ℕ
key_of i = slot_key_from_index (pos i)

-- A text that the store can hold.
pub record Storable (tab payload : Bytes) : Type 0 where
  pub tab_fits : length tab < 32
  pub payload_fits : length payload < 1024
  pub payload_there : is_empty payload ≡ false

pub key_of_injective :
    (i j : ℕ) → i < max_harpoon_slots → j < max_harpoon_slots → key_of i ≡ key_of j → i ≡ j
unfolding slot_key_from_index
key_of_injective i j hi hj e = ground arith

-- Entries of different places are told apart.
pub entry_apart :
    (tab tab' : Bytes) (k k' : ℕ)
    → ((k == k') && bytes_eq tab tab') ≡ false
    → (e : SlotEntry) → is_entry_of tab k e ≡ true
    → is_entry_of tab' k' e ≡ false
entry_apart tab tab' k k' apart e h =
    ground (arith, bytes_eq_iff e.tab_id tab, bytes_eq_iff e.tab_id tab', bytes_eq_iff tab tab')

abbrev pub payload_of : Option SlotEntry → Option Bytes
payload_of none = none
payload_of (some e) = some e.payload

pub lookup_at :
    (store : SlotStore) (tab : Bytes) (i : ℕ)
    → i < max_harpoon_slots
    → slot_lookup store tab (key_of i)
      ≡ payload_of (find_first (is_entry_of tab (key_of i)) store.entries)
unfolding slot_lookup
lookup_at store tab i hi = rw (index_of_key i hi, slot_lookup) (ground arith)

-- Slots with different keys are different slots.
pub slots_apart :
    (i j : ℕ) (tab tab' : Bytes)
    → ((key_of i == key_of j) && bytes_eq tab tab') ≡ false
    → ((i == j) && bytes_eq tab tab') ≡ false
slots_apart i j tab tab' apart = elim (Bool-cases (i == j)) [
  | inl same ↦
      let at_i : i ≡ j = (==_iff i j).0 same in
      rw same (ground (arith, rw (at_i, ==_refl (key_of j)) at apart))
  | inr other ↦ rw other
]

pub put_entry_self :
    (store : SlotStore) (tab : Bytes) (k : ℕ) (e : SlotEntry)
    → is_entry_of tab k e ≡ true
    → find_first (is_entry_of tab k) (put_entry store tab k e).entries ≡ some e
unfolding put_entry find_entry
put_entry_self store tab k e t =
    elim (Option-cases (find_index (is_entry_of tab k) store.entries)) [
      | inl absent ↦
          rw (absent, put_entry)
            (rw (set-snoc store.entries) (
              find_first-snoc (is_entry_of tab k) store.entries e
              ∙ (rw (find_first_of_none (is_entry_of tab k) store.entries absent, t))))
      | inr (n, found) ↦
          rw (found, put_entry) (find_first-set_self (is_entry_of tab k) store.entries e found t)
    ]

find_first-snoc_ne :
    (q : SlotEntry → Bool) (es : List SlotEntry) (e : SlotEntry)
    → q e ≡ false
    → find_first q (es ++ (e ∷ [])) ≡ find_first q es
find_first-snoc_ne q es e f = ground (arith, find_first-snoc q es e)

put_entry_ne :
    (store : SlotStore) (tab : Bytes) (k : ℕ) (e : SlotEntry) (q : SlotEntry → Bool)
    → ((x : SlotEntry) → is_entry_of tab k x ≡ true → q x ≡ false)
    → q e ≡ false
    → find_first q (put_entry store tab k e).entries ≡ find_first q store.entries
unfolding put_entry find_entry
put_entry_ne store tab k e q apart f =
    elim (Option-cases (find_index (is_entry_of tab k) store.entries)) [
      | inl absent ↦
          rw (absent, put_entry)
            (rw (set-snoc store.entries) (find_first-snoc_ne q store.entries e f))
      | inr (n, found) ↦
          rw (found, put_entry)
            (find_first-set_ne (is_entry_of tab k) q store.entries e found apart f)
    ]

module _ (g : Glib) where
  pub filled-is_entry :
      (i : ℕ) (tab payload tab' : Bytes) (k : ℕ)
      → length tab < 32
      → is_entry_of tab' k (filled_entry g i tab payload) ≡ ((key_of i == k) && bytes_eq tab tab')
  unfolding filled_entry
  filled-is_entry i tab payload tab' k h = rw (g.strlcpy_fits 32 tab h) refl

  payload-filled :
      (i : ℕ) (tab payload : Bytes)
      → length payload < 1024
      → (filled_entry g i tab payload).payload ≡ payload
  unfolding filled_entry
  payload-filled i tab payload h = g.strlcpy_fits 1024 payload h

  pub assign_at_key :
      (store : SlotStore) (i : ℕ) (tab payload : Bytes)
      → i < max_harpoon_slots
      → is_empty payload ≡ false
      → slot_assign g store (key_of i) tab payload
        ≡ put_entry store tab (key_of i) (filled_entry g i tab payload)
  unfolding slot_assign
  assign_at_key store i tab payload hi there = rw (index_of_key i hi, slot_assign) (rw there)

  -- After an assignment to the key of a slot, the slot's text for the tab is the new one, and every
  -- other tab and slot has the text it had. The tab fits its buffer, and so does the text, which is not
  -- empty.
  pub lookup-assign :
      (store : SlotStore) (i j : ℕ) (tab payload tab' : Bytes)
      → i < max_harpoon_slots
      → j < max_harpoon_slots
      → Storable tab payload
      → slot_lookup (slot_assign g store (key_of i) tab payload) tab' (key_of j) ≡ (
          if (i == j) && bytes_eq tab tab' then some payload else slot_lookup store tab' (key_of j))
  lookup-assign store i j tab payload tab' hi hj s =
      rw (assign_at_key store i tab payload hi s.payload_there, lookup_at)
        (elim (Bool-cases ((key_of i == key_of j) && bytes_eq tab tab')) [
          | inl same ↦
              let at_i : i ≡ j = key_of_injective i j hi hj (ground arith) in
              let tabs : tab ≡ tab' = (bytes_eq_iff tab tab').0 (ground arith) in
              rw (← at_i, ← tabs)
                (rw
                  (put_entry_self store tab (key_of i) (filled_entry g i tab payload) (
                    filled-is_entry i tab payload tab (key_of i) s.tab_fits
                    ∙ ground (arith, bytes_eq_refl tab)))
                  (rw (payload-filled i tab payload s.payload_fits, ==_refl i, bytes_eq_refl tab)))
          | inr apart ↦
              rw (slots_apart i j tab tab' apart, lookup_at)
                (ap payload_of (
                  put_entry_ne store tab (key_of i) (filled_entry g i tab payload)
                    (is_entry_of tab' (key_of j)) (entry_apart tab tab' (key_of i) (key_of j) apart)
                    (filled-is_entry i tab payload tab' (key_of j) s.tab_fits ∙ apart)))
        ])

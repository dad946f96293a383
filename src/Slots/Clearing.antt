-- ===== src/Slots/Clearing.antt =====
-- src/core/slot_store/slot_store.c: clearing a slot, and that no slot has two entries.
use cofi.Prelude.{
  ℕ, zero, suc, ◌<◌, ◌≡◌, sym, ap, ◌∙◌, inl, inr, true, false, ◌&&◌, List, [], ◌∷◌, ◌++◌, none,
  some, Bytes, bytes_eq, bytes_eq_iff, bytes_eq_refl, set, remove_at, find_index, find_first, All,
  All-append, All-remove_at, set-snoc, find_first-remove_at_ne, find_first_of_All,
  find_first_of_none, ◌==◌, ==_refl, ==_iff, if◌then◌else◌, arith, Bool-cases, Option-cases,
}
use cofi.Glib.{Glib}
use cofi.Slots.{
  slot_store_init, SlotEntry, SlotStore, max_harpoon_slots, is_entry_of, find_entry, put_entry,
  filled_entry, slot_assign, slot_clear, slot_lookup,
}
use cofi.Slots.Keys.{index_of_key}
use cofi.Slots.Laws.{
  key_of, Storable, payload_of, lookup_at, slots_apart, entry_apart, key_of_injective,
  assign_at_key, filled-is_entry,
}

-- Every entry is assigned, and no later one has its tab and key.
abbrev pub Unique : List SlotEntry → Type 0
Unique [] = Unit
Unique (e ∷ es) =
    All (λ f. is_entry_of e.tab_id e.slot_key f ≡ false) es × (e.assigned ≡ true) × Unique es

others_same_place :
    (tab : Bytes) (k : ℕ) (e : SlotEntry) (es : List SlotEntry)
    → is_entry_of tab k e ≡ true
    → All (λ f. is_entry_of e.tab_id e.slot_key f ≡ false) es
    → All (λ f. is_entry_of tab k f ≡ false) es
others_same_place tab k e [] t h = tt
others_same_place tab k e (f ∷ es) t h = (
  ground (
    arith,
    h.0,
    bytes_eq_iff e.tab_id tab,
    bytes_eq_iff f.tab_id tab,
    bytes_eq_iff f.tab_id e.tab_id,
  ),
  others_same_place tab k e es t h.1,
)

remove_at-Unique :
    (tab : Bytes) (k : ℕ) (es : List SlotEntry) {n : ℕ}
    → Unique es
    → find_index (is_entry_of tab k) es ≡ some n
    → find_first (is_entry_of tab k) (remove_at es n) ≡ none
unfolding find_index
remove_at-Unique tab k [] u h = cc
remove_at-Unique tab k (e ∷ es) {n} u h = elim (Bool-cases (is_entry_of tab k e)) [
  | inl t ↦
      let first : n ≡ 0 = ground arith in
      rw first (find_first_of_All (is_entry_of tab k) es (others_same_place tab k e es t u.0))
  | inr f ↦ elim (Option-cases (find_index (is_entry_of tab k) es)) [
    | inl absent ↦ ground arith
    | inr (m, found) ↦ ground (arith, remove_at-Unique tab k es u.2 found)
  ]
]

Unique-remove_at : (es : List SlotEntry) (n : ℕ) → Unique es → Unique (remove_at es n)
Unique-remove_at [] n u = tt
Unique-remove_at (e ∷ es) zero u = u.2
Unique-remove_at (e ∷ es) (suc n) u = (
  All-remove_at (λ f. is_entry_of e.tab_id e.slot_key f ≡ false) es n u.0,
  u.1,
  Unique-remove_at es n u.2,
)

gone_absent :
    (store : SlotStore) (tab : Bytes) (i : ℕ)
    → i < max_harpoon_slots
    → find_index (is_entry_of tab (key_of i)) store.entries ≡ none
    → slot_lookup store tab (key_of i) ≡ none
gone_absent store tab i hi absent =
    lookup_at store tab i hi
    ∙ ap payload_of (find_first_of_none (is_entry_of tab (key_of i)) store.entries absent)

gone_taken :
    (store : SlotStore) (tab : Bytes) (i n : ℕ)
    → i < max_harpoon_slots
    → Unique store.entries
    → find_index (is_entry_of tab (key_of i)) store.entries ≡ some n
    → slot_lookup (record store { entries = remove_at store.entries n }) tab (key_of i) ≡ none
gone_taken store tab i n hi u found =
    lookup_at (record store { entries = remove_at store.entries n }) tab i hi
    ∙ ap payload_of (remove_at-Unique tab (key_of i) store.entries u found)

-- In a store without two entries for a slot, clearing a slot removes its text, and every other tab
-- and slot has the text it had.
pub lookup-clear :
    (store : SlotStore) (i j : ℕ) (tab tab' : Bytes)
    → i < max_harpoon_slots
    → j < max_harpoon_slots
    → Unique store.entries
    → slot_lookup (slot_clear store tab (key_of i)) tab' (key_of j)
      ≡ (if (i == j) && bytes_eq tab tab' then none else slot_lookup store tab' (key_of j))
unfolding slot_clear
lookup-clear store i j tab tab' hi hj u =
    rw (index_of_key i hi, slot_clear)
      (elim (Option-cases (find_index (is_entry_of tab (key_of i)) store.entries)) [
        | inl absent ↦ rw absent (not_there absent)
        | inr (n, found) ↦ rw found (taken n found)
      ])
  where
    Cleared : SlotStore → Type 0
    Cleared store' =
        slot_lookup store' tab' (key_of j)
        ≡ (if (i == j) && bytes_eq tab tab' then none else slot_lookup store tab' (key_of j))

    not_there : find_index (is_entry_of tab (key_of i)) store.entries ≡ none → Cleared store
    not_there absent = elim (Bool-cases ((i == j) && bytes_eq tab tab')) [
      | inr other ↦ rw other
      | inl same ↦
          let at_i : i ≡ j = (==_iff i j).0 (ground arith) in
          let tabs : tab ≡ tab' = (bytes_eq_iff tab tab').0 (ground arith) in
          rw same (rw (← at_i, ← tabs) (gone_absent store tab i hi absent))
    ]

    taken :
        (n : ℕ)
        → find_index (is_entry_of tab (key_of i)) store.entries ≡ some n
        → Cleared (record store { entries = remove_at store.entries n })
    taken n found = elim (Bool-cases ((key_of i == key_of j) && bytes_eq tab tab')) [
      | inl same ↦
          let at_i : i ≡ j = key_of_injective i j hi hj (ground arith) in
          let tabs : tab ≡ tab' = (bytes_eq_iff tab tab').0 (ground arith) in
          rw (← at_i, ← tabs)
            (rw (==_refl i, bytes_eq_refl tab) (gone_taken store tab i n hi u found))
      | inr apart ↦ rw (slots_apart i j tab tab' apart) (
          lookup_at (record store { entries = remove_at store.entries n }) tab' j hj
          ∙ ap payload_of (
              find_first-remove_at_ne (is_entry_of tab (key_of i)) (is_entry_of tab' (key_of j))
                store.entries found (entry_apart tab tab' (key_of i) (key_of j) apart))
          ∙ sym (lookup_at store tab' j hj))
    ]

pub clear-Unique :
    (store : SlotStore) (tab : Bytes) (i : ℕ)
    → i < max_harpoon_slots
    → Unique store.entries
    → Unique (slot_clear store tab (key_of i)).entries
unfolding slot_clear
clear-Unique store tab i hi u =
    rw (index_of_key i hi, slot_clear)
      (elim (Option-cases (find_index (is_entry_of tab (key_of i)) store.entries)) [
        | inl absent ↦ rw absent u
        | inr (n, found) ↦ rw found (Unique-remove_at store.entries n u)
      ])

-- The entry `v` stands at the place of tab and key.
All-set :
    (P : SlotEntry → Type 0) (es : List SlotEntry) (n : ℕ) (v : SlotEntry)
    → P v
    → All P es
    → All P (set es n v)
All-set P [] n v pv h = tt
All-set P (e ∷ es) zero v pv h = (pv, h.1)
All-set P (e ∷ es) (suc n) v pv h = (h.0, All-set P es n v pv h.1)

not_at_place :
    (tab : Bytes) (k : ℕ) (e v : SlotEntry)
    → is_entry_of tab k e ≡ false
    → e.assigned ≡ true
    → is_entry_of tab k v ≡ true
    → is_entry_of e.tab_id e.slot_key v ≡ false
not_at_place tab k e v f a t =
    ground
      (arith, bytes_eq_iff e.tab_id tab, bytes_eq_iff v.tab_id tab, bytes_eq_iff v.tab_id e.tab_id)

Unique-set :
    (tab : Bytes) (k : ℕ) (v : SlotEntry) (es : List SlotEntry) {n : ℕ}
    → Unique es
    → is_entry_of tab k v ≡ true
    → find_index (is_entry_of tab k) es ≡ some n
    → Unique (set es n v)
unfolding find_index
Unique-set tab k v [] u t h = tt
Unique-set tab k v (e ∷ es) {n} u t h = elim (Bool-cases (is_entry_of tab k e)) [
  | inl here ↦
      let first : n ≡ 0 = ground arith in
      let place : (v.tab_id ≡ tab) × (v.slot_key ≡ k) × (v.assigned ≡ true) =
        (ground (arith, bytes_eq_iff v.tab_id tab), ground arith, ground arith) in
      rw first (rw (place.0, place.1) (others_same_place tab k e es here u.0, place.2, u.2))
  | inr f ↦ elim (Option-cases (find_index (is_entry_of tab k) es)) [
    | inl absent ↦ absurd (ground arith)
    | inr (m, found) ↦
        let at_m : n ≡ suc m = ground arith in
        rw at_m (
          All-set (λ x. is_entry_of e.tab_id e.slot_key x ≡ false) es m v
              (not_at_place tab k e v f u.1 t) u.0,
          u.1,
          Unique-set tab k v es u.2 t found,
        )
  ]
]

Unique-snoc :
    (tab : Bytes) (k : ℕ) (v : SlotEntry) (es : List SlotEntry)
    → Unique es
    → is_entry_of tab k v ≡ true
    → find_index (is_entry_of tab k) es ≡ none
    → Unique (es ++ (v ∷ []))
unfolding find_index
Unique-snoc tab k v [] u t h = (tt, ground arith, tt)
Unique-snoc tab k v (e ∷ es) u t h = elim (Option-cases (find_index (is_entry_of tab k) es)) [
  | inl absent ↦ (
    All-append (λ x. is_entry_of e.tab_id e.slot_key x ≡ false) es (v ∷ []) u.0
        (not_at_place tab k e v (ground arith) u.1 t, tt),
    u.1,
    Unique-snoc tab k v es u.2 t absent,
  )
  | inr (m, found) ↦ absurd (ground arith)
]

-- Assigning a text that the store can hold to the key of a slot keeps the store without two entries
-- for a slot.
pub assign-Unique :
    (g : Glib) (store : SlotStore) (i : ℕ) (tab payload : Bytes)
    → i < max_harpoon_slots
    → Storable tab payload
    → Unique store.entries
    → Unique (slot_assign g store (key_of i) tab payload).entries
unfolding put_entry find_entry
assign-Unique g store i tab payload hi s u =
    rw (assign_at_key g store i tab payload hi s.payload_there)
      (elim (Option-cases (find_index (is_entry_of tab (key_of i)) store.entries)) [
        | inl absent ↦
            rw (absent, put_entry)
              (rw (set-snoc store.entries) (
                Unique-snoc tab (key_of i) (filled_entry g i tab payload) store.entries u here
                  absent))
        | inr (n, found) ↦
            rw (found, put_entry)
              (Unique-set tab (key_of i) (filled_entry g i tab payload) store.entries u here found)
      ])
  where
    here : is_entry_of tab (key_of i) (filled_entry g i tab payload) ≡ true
    here =
        filled-is_entry g i tab payload tab (key_of i) s.tab_fits
        ∙ ground (arith, bytes_eq_refl tab)

pub init-Unique : Unique slot_store_init.entries
unfolding slot_store_init
init-Unique = tt

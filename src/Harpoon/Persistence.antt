-- ===== src/Harpoon/Persistence.antt =====
-- src/harpoon/harpoon_config.c: what is saved of the slots is read back.
use cofi.Prelude.{
  ℕ, zero, suc, pos, ◌+◌, ◌^◌, ◌<◌, ◌≤◌, ◌≡◌, ◌⊎◌, refl, sym, ap, ◌∙◌, true, ◌&&◌, List, Option,
  none, some, Bytes, bytes_eq_refl, length, get_elem?, set, All, All-get_elem?, get_elem?-some,
  get_elem?-set_self, get_elem?-set_ne, length-set, list_ext, leb, ltb, ◌==◌, ==_iff, if◌then◌else◌,
  arith, Bool-cases, Option-cases, inl, inr,
}
use cofi.Glib.{Glib}
use cofi.Slots.{SlotStore, slot_lookup, max_harpoon_slots}
use cofi.Slots.Laws.{key_of, Storable, lookup-assign}
use cofi.Slots.Clearing.{Unique, lookup-clear, clear-Unique, assign-Unique}
use cofi.Harpoon.{
  HarpoonSlot, HarpoonManager, harpoon_tab_id, serialize_window_slot_payload, free_slot, all_free,
  hydrate_slot, hydrate_from, hydrate_window_slots_from_store, sync_slot, sync_from,
  sync_window_slots_to_store,
}
use cofi.Harpoon.Decimal.{print_int, read_int-print_int, print_int-short}

-- A slot is free, or holds a number that is positive and fits an `int`.
abbrev pub IsSound : HarpoonSlot → Type 0
IsSound slot =
    (slot ≡ free_slot)
    ⊎ ((n : ℕ) × (0 < n) × (n < 2 ^ 31) × (slot ≡ record { match_id = pos n; assigned = true }))

-- What the store should hold for a slot.
abbrev saved : HarpoonSlot → Option Bytes
saved slot = if slot.assigned then some (serialize_window_slot_payload slot) else none

abbrev saved_of : Option HarpoonSlot → Option Bytes
saved_of none = none
saved_of (some x) = saved x

window_text : (n : ℕ) → n < 2 ^ 31 → Storable harpoon_tab_id (print_int (pos n))
window_text n h = record {
  tab_fits = omega arith;
  payload_fits = omega (arith, print_int-short n h);
  payload_there = (print_int-short n h).1;
}

module _ (g : Glib) (slots : List HarpoonSlot) (sound : All IsSound slots) where
  -- One slot is written: its text is what it should be, the other texts stay.
  sync_slot_lem :
      (store : SlotStore) (i j : ℕ) {x : HarpoonSlot}
      → i < max_harpoon_slots
      → j < max_harpoon_slots
      → Unique store.entries
      → get_elem? slots i ≡ some x
      → Unique (sync_slot g slots store i).entries
        × (slot_lookup (sync_slot g slots store i) harpoon_tab_id (key_of j)
            ≡ (if i == j then saved x else slot_lookup store harpoon_tab_id (key_of j)))
  unfolding sync_slot
  sync_slot_lem store i j {x} hi hj u held = elim (All-get_elem? IsSound slots i sound held) [
    | inl is_free ↦ elim (Option-cases (slot_lookup store harpoon_tab_id (key_of i))) [
      | inl nothing ↦ rw (held, sync_slot) (rw is_free (rw nothing (u, nothing_there nothing)))
      | inr (text, there) ↦
          rw (held, sync_slot)
            (rw is_free (
              rw there (
                clear-Unique store harpoon_tab_id i hi u,
                ground (
                  arith,
                  lookup-clear store i j harpoon_tab_id harpoon_tab_id hi hj u,
                  bytes_eq_refl harpoon_tab_id,
                ),
              )))
    ]
    | inr (n, n_pos, n_small, full) ↦
        rw (held, sync_slot)
          (rw full (
            assign-Unique g store i harpoon_tab_id (print_int (pos n)) hi (window_text n n_small) u,
            ground (
              arith,
              lookup-assign g store i j harpoon_tab_id (print_int (pos n)) harpoon_tab_id hi hj
                  (window_text n n_small),
              bytes_eq_refl harpoon_tab_id,
            ),
          ))
  ]
    where
      nothing_there :
          slot_lookup store harpoon_tab_id (key_of i) ≡ none
          → slot_lookup store harpoon_tab_id (key_of j)
            ≡ (if i == j then none else slot_lookup store harpoon_tab_id (key_of j))
      nothing_there nothing = elim (Bool-cases (i == j)) [
        | inl same ↦ let at_i : i ≡ j = (==_iff i j).0 same in rw same (rw at_i at nothing)
        | inr other ↦ rw other
      ]

  sync_from_lem :
      (rounds i : ℕ) (store : SlotStore)
      → i + rounds ≤ length slots
      → length slots ≡ max_harpoon_slots
      → Unique store.entries
      → (j : ℕ) → j < max_harpoon_slots
      → slot_lookup (sync_from g rounds i slots store) harpoon_tab_id (key_of j) ≡ (
          if leb i j && ltb j (i + rounds)
          then saved_of (get_elem? slots j)
          else slot_lookup store harpoon_tab_id (key_of j))
  unfolding sync_from
  sync_from_lem zero i store within all u j hj = ground arith
  sync_from_lem (suc rounds) i store within all u j hj =
      let (x, held) = get_elem?-some slots i (omega arith) in
      let (u', written) = sync_slot_lem store i j (omega arith) hj u held in
      let rest =
        sync_from_lem rounds (suc i) (sync_slot g slots store i) (omega arith) all
          (sync_slot_lem store i i (omega arith) (omega arith) u held).0 j hj in
      elim (Bool-cases (i == j)) [
        | inl same ↦
            let at_i : i ≡ j = (==_iff i j).0 same in
            let here : saved_of (get_elem? slots j) ≡ saved x =
              ap saved_of (ap (get_elem? slots) (sym at_i) ∙ held) in
            ground arith
        | inr other ↦ ground arith
      ]

  module _ (store : SlotStore) (all : length slots ≡ max_harpoon_slots)
      (holds : (j : ℕ)
        → j < max_harpoon_slots
        → slot_lookup store harpoon_tab_id (key_of j) ≡ saved_of (get_elem? slots j)) where
    -- The slots below `i` are read, the others are free.
    abbrev ReadUpTo : ℕ → List HarpoonSlot → Type 0
    ReadUpTo i acc =
        (length acc ≡ max_harpoon_slots)
        × ((j : ℕ)
            → j < max_harpoon_slots
            → get_elem? acc j ≡ (if ltb j i then get_elem? slots j else some free_slot))

    text_of :
        (i : ℕ) {x : HarpoonSlot}
        → i < max_harpoon_slots
        → get_elem? slots i ≡ some x
        → slot_lookup store harpoon_tab_id (key_of i) ≡ saved x
    text_of i hi held = holds i hi ∙ ap saved_of held

    hydrate_free :
        (i : ℕ) (acc : List HarpoonSlot)
        → i < max_harpoon_slots
        → get_elem? slots i ≡ some free_slot
        → hydrate_slot store acc i ≡ acc
    unfolding hydrate_slot
    hydrate_free i acc hi held = rw (text_of i hi held, hydrate_slot)

    hydrate_full :
        (i n : ℕ) (acc : List HarpoonSlot)
        → i < max_harpoon_slots
        → 0 < n
        → n < 2 ^ 31
        → get_elem? slots i ≡ some (record { match_id = pos n; assigned = true })
        → hydrate_slot store acc i ≡ set acc i (record { match_id = pos n; assigned = true })
    unfolding hydrate_slot
    hydrate_full i n acc hi n_pos n_small held =
        rw (text_of i hi held, hydrate_slot) (rw (read_int-print_int n n_small) (ground arith))

    hydrate_slot-ReadUpTo :
        (i : ℕ) (acc : List HarpoonSlot) (x : HarpoonSlot)
        → i < max_harpoon_slots
        → get_elem? slots i ≡ some x
        → ReadUpTo i acc
        → ReadUpTo (suc i) (hydrate_slot store acc i)
    hydrate_slot-ReadUpTo i acc x hi held (len, before) =
        elim (All-get_elem? IsSound slots i sound held) [
          | inl is_free ↦ rw (hydrate_free i acc hi (held ∙ ap some is_free)) (
            len,
            λ j hj. elim (Bool-cases (i == j)) [
              | inl same ↦
                  let at_i : i ≡ j = (==_iff i j).0 same in
                  rw (← at_i) (before i hi ∙ ground (arith, held ∙ ap some is_free))
              | inr other ↦ before j hj ∙ ground arith
            ],
          )
          | inr (n, n_pos, n_small, full) ↦
              let v : HarpoonSlot = record { match_id = pos n; assigned = true } in
              rw (hydrate_full i n acc hi n_pos n_small (held ∙ ap some full)) (
                length-set acc i v ∙ len,
                λ j hj. elim (Bool-cases (i == j)) [
                  | inl same ↦
                      let at_i : i ≡ j = (==_iff i j).0 same in
                      rw (← at_i) (
                        get_elem?-set_self acc i v (omega (arith, len))
                        ∙ ground (arith, held ∙ ap some full))
                  | inr other ↦
                      get_elem?-set_ne acc i j v (ground arith) ∙ before j hj ∙ ground arith
                ],
              )
        ]

    hydrate_from-ReadUpTo :
        (rounds i : ℕ) (acc : List HarpoonSlot)
        → i + rounds ≡ max_harpoon_slots
        → ReadUpTo i acc
        → ReadUpTo max_harpoon_slots (hydrate_from rounds i store acc)
    unfolding hydrate_from
    hydrate_from-ReadUpTo zero i acc last h =
        let at_end : i ≡ max_harpoon_slots = omega arith in rw at_end at h
    hydrate_from-ReadUpTo (suc rounds) i acc last h =
        let (x, held) = get_elem?-some slots i (omega (arith, all)) in
        hydrate_from-ReadUpTo rounds (suc i) (hydrate_slot store acc i) (omega arith)
          (hydrate_slot-ReadUpTo i acc x (omega arith) held h)

    read_back :
        (acc : List HarpoonSlot)
        → ReadUpTo 0 acc
        → hydrate_from max_harpoon_slots 0 store acc ≡ slots
    read_back acc h =
        let (len, same) = hydrate_from-ReadUpTo max_harpoon_slots 0 acc (omega arith) h in
        list_ext (hydrate_from max_harpoon_slots 0 store acc) slots (omega (arith, len, all))
          (λ j hj.
            let small : j < max_harpoon_slots = omega (arith, len) in same j small ∙ ground arith)

all_free-get : (n j : ℕ) → j < n → get_elem? (all_free n) j ≡ some free_slot
all_free-get zero j h = absurd (omega arith)
all_free-get (suc n) zero h = refl
all_free-get (suc n) (suc j) h = all_free-get n j (omega arith)

-- If every slot of a manager is free or holds a positive number that fits an `int`, then writing the
-- slots to any store without two entries for a slot, and reading that store into a manager whose
-- slots are free, gives the same slots.
pub save_load_slots :
    (g : Glib) (h fresh : HarpoonManager) (store : SlotStore)
    → All IsSound h.slots
    → length h.slots ≡ max_harpoon_slots
    → Unique store.entries
    → fresh.slots ≡ all_free max_harpoon_slots
    → fresh.store ≡ sync_window_slots_to_store g h store
    → (hydrate_window_slots_from_store fresh).slots ≡ h.slots
unfolding hydrate_window_slots_from_store sync_window_slots_to_store
save_load_slots g h fresh store sound all u free same =
    rw (free, same)
      (read_back g h.slots sound (sync_from g max_harpoon_slots 0 h.slots store) all
        (λ j hj.
          sync_from_lem g h.slots sound max_harpoon_slots 0 store (omega (arith, all)) all u j hj
          ∙ ground arith)
        (all_free max_harpoon_slots)
        (refl, λ j hj. all_free-get max_harpoon_slots j hj ∙ ground arith))

-- ===== src/Harpoon/Examples.antt =====
-- Runs of the window slots.
use cofi.Prelude.{ℕ, zero, suc, pos, ◌≡◌, refl, inl, inr, true, [], ◌∷◌, some, arith, All, set}
use cofi.Glib.{plain_glib}
use cofi.Matching.Examples.{editor, shell, two_entries, two_entries-IsValid}
use cofi.Slots.{max_harpoon_slots, slot_store_init}
use cofi.Slots.Clearing.{init-Unique}
use cofi.Harpoon.{
  HarpoonManager, Shared, all_free, init_harpoon_manager, assign_window_to_slot, is_slot_assigned,
  get_slot_window, hydrate_window_slots_from_store, sync_window_slots_to_store,
}
use cofi.Harpoon.Assignment.{IsReady, assign_window_lem}
use cofi.Harpoon.Persistence.{IsSound, save_load_slots}

abbrev registry : Shared
registry = record { matching = two_entries; windows = editor ∷ shell ∷ [] }

-- Slot 0 holds the first entry.
abbrev manager : HarpoonManager
manager = record {
  store = slot_store_init;
  slots = set (all_free max_harpoon_slots) 0 (record { match_id = pos 1; assigned = true });
  shared = some registry;
}

manager-IsReady : IsReady manager registry
manager-IsReady = record { set_up = refl; registry = two_entries-IsValid; slots = refl }

assign_window_lem_example :
    let h' = assign_window_to_slot plain_glib manager (pos 3) shell in
    (is_slot_assigned h' (pos 3) ≡ true) × (get_slot_window h' (pos 3) ≡ (9, h'))
assign_window_lem_example =
    assign_window_lem plain_glib manager registry 3 shell manager-IsReady (omega arith)
      (omega arith) (omega arith)

all_free-IsSound : (n : ℕ) → All IsSound (all_free n)
all_free-IsSound zero = tt
all_free-IsSound (suc n) = (inl refl, all_free-IsSound n)

manager-IsSound : All IsSound manager.slots
manager-IsSound = (inr (1, omega arith, omega arith, refl), all_free-IsSound 35)

save_load_slots_example :
    (hydrate_window_slots_from_store (record init_harpoon_manager {
      store = sync_window_slots_to_store plain_glib manager slot_store_init;
    })).slots
    ≡ manager.slots
unfolding init_harpoon_manager
save_load_slots_example =
    save_load_slots plain_glib manager
      (record init_harpoon_manager {
        store = sync_window_slots_to_store plain_glib manager slot_store_init;
      })
      slot_store_init manager-IsSound refl init-Unique refl refl

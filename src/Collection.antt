-- ===== src/Collection.antt =====
-- src/core/app/matching_gc.c: the registry is cleared of the entries that no other part refers to.
-- The numbers of the slots, names, layouts and rules are gathered in an array on the stack. The
-- loops over layouts and rules fill the room that is left of it. Saving the registry is left out.
pub mod Kept
mod Examples
use cofi.Prelude.{
  ℕ, zero, suc, ℤ, ◌+◌, ◌-◌, ◌*◌, Bool, true, false, ◌&&◌, List, [], ◌∷◌, ◌++◌, length, is_positive,
  if◌then◌else◌,
}
use cofi.Matching.Registry.{MatchEntryManager, max_windows, match_entry_gc}
use cofi.Slots.{max_harpoon_slots}
use cofi.Harpoon.{HarpoonSlot}
use cofi.Names.{NamesStore, names_store_collect_ids}
use cofi.Geometry.Layouts.{LayoutRecord}
use cofi.Rules.Config.{Rule, RulesConfig, max_rules}

-- The fields of `AppData` that refer to the registry.
pub record AppData : Type 0 where
  pub matching : MatchEntryManager
  pub slots : List HarpoonSlot
  pub names : NamesStore
  pub layouts : List LayoutRecord
  pub rules_config : RulesConfig

abbrev pub max_referenced : ℕ
max_referenced = max_harpoon_slots + max_rules + max_windows * 2

unfoldable pub slot_ids : List HarpoonSlot → List ℤ
slot_ids [] = []
slot_ids (s ∷ ss) =
    if s.assigned && is_positive s.match_id then s.match_id ∷ slot_ids ss else slot_ids ss

-- src/geom/layout_store.c: the numbers of the layouts, at most `room` of them.
unfoldable pub layout_store_collect_ids : List LayoutRecord → ℕ → List ℤ
layout_store_collect_ids [] room = []
layout_store_collect_ids (l ∷ ls) zero = []
layout_store_collect_ids (l ∷ ls) (suc room) =
    if is_positive l.match_id
    then l.match_id ∷ layout_store_collect_ids ls room
    else layout_store_collect_ids ls (suc room)

unfoldable pub rule_ids : RulesConfig → ℕ → List ℤ
rule_ids [] room = []
rule_ids (r ∷ rs) zero = []
rule_ids (r ∷ rs) (suc room) =
    if is_positive r.match_id then r.match_id ∷ rule_ids rs room else rule_ids rs (suc room)

-- The array after one more part has filled it, for the room that the part is given.
unfoldable pub extend : List ℤ → (ℕ → List ℤ) → List ℤ
extend ids collect = ids ++ collect (max_referenced - length ids)

pub referenced_ids : AppData → List ℤ
referenced_ids app =
    extend
      (extend (extend (slot_ids app.slots) (names_store_collect_ids app.names))
        (layout_store_collect_ids app.layouts))
      (rule_ids app.rules_config)

-- The application, and the number of entries removed.
pub matching_run_gc : AppData → AppData × ℕ
matching_run_gc app =
    let (m, removed) = match_entry_gc app.matching (referenced_ids app) in
    (record app { matching = m }, removed)

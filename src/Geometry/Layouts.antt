-- ===== src/Geometry/Layouts.antt =====
-- The saved layouts, src/geom/layout_store.c: the records[0 .. count). Loading, saving and the path of
-- the file are left out.
pub mod Map
pub mod Refinement
pub mod Runs
use cofi.Prelude.{
  ℕ, ℤ, Bool, true, false, not, ◌&&◌, ◌||◌, List, [], ◌∷◌, ◌++◌, Option, none, some, length,
  get_elem?, set, remove_at, find_index, is_positive, eq_ℤ, leb, if◌then◌else◌,
}
use cofi.Matching.Registry.{max_windows}

-- src/geom/layout_store.h
pub record LayoutRecord : Type 0 where
  pub match_id : ℤ
  pub x : ℤ
  pub y : ℤ
  pub width : ℤ
  pub height : ℤ
  pub desktop : ℤ
  pub maximized_vert : Bool
  pub maximized_horz : Bool
  pub fullscreen : Bool
  pub restore_desktop : Bool
  pub disabled : Bool

abbrev pub is_layout_of : ℤ → LayoutRecord → Bool
is_layout_of match_id r = eq_ℤ r.match_id match_id

abbrev pub layout_store_init : List LayoutRecord
layout_store_init = []

-- `none` stands for -1.
abbrev pub layout_store_find_index : List LayoutRecord → ℤ → Option ℕ
layout_store_find_index records match_id =
    if not (is_positive match_id) then none else find_index (is_layout_of match_id) records

-- The record has the arguments of the call in its fields.
unfoldable pub layout_store_set : List LayoutRecord → LayoutRecord → List LayoutRecord × Bool
layout_store_set records r =
    if not (is_positive r.match_id) || not (is_positive r.width) || not (is_positive r.height)
    then (records, false)
    else elim (layout_store_find_index records r.match_id) [
      | none ↦
          if leb max_windows (length records) then (records, false) else (records ++ r ∷ [], true)
      | some idx ↦ (set records idx r, true)
    ]

abbrev pub layout_store_get : List LayoutRecord → ℤ → Option LayoutRecord
layout_store_get records match_id = elim (layout_store_find_index records match_id) [
  | none ↦ none
  | some idx ↦ get_elem? records idx
]

unfoldable pub layout_store_clear : List LayoutRecord → ℤ → List LayoutRecord × Bool
layout_store_clear records match_id = elim (layout_store_find_index records match_id) [
  | none ↦ (records, false)
  | some idx ↦ (remove_at records idx, true)
]

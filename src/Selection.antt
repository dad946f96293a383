-- ===== src/Selection.antt =====
-- src/core/selection/selection.c: the selected row of the current tab and the first row on screen.
-- The rows of a tab come from the windows that the filter left or from the tab's provider, whose
-- functions are arguments: a provider without one of them has a NULL pointer there, `none`.
-- The indices are an `int` of the code that is set to no negative number; the redraw, the callback
-- `on_selection_changed` and the unused fields of the sinks and proc tabs are left out.
pub mod Scroll
pub mod Moves
pub mod Filtering
mod Examples
use cofi.Prelude.{
  ℕ, zero, suc, ℤ, pos, negsuc, ◌+◌, ◌-◌, Bool, true, false, not, ◌&&◌, List, [], ◌∷◌, Option, none,
  some, Bytes, bytes_eq, is_empty, copy_to, length, get_elem?, find_index, leb, ltb, ◌==◌,
  if◌then◌else◌,
}
use cofi.Windows.{WindowInfo}

abbrev pub provider_id_max : ℕ
provider_id_max = 512

pub record SelectionState : Type 0 where
  pub window_index : ℕ
  pub selected_window_id : ℕ
  pub selected_provider_id : Bytes
  pub provider_index : ℕ
  pub window_scroll_offset : ℕ
  pub provider_scroll_offset : ℕ

pub record Provider : Type 0 where
  pub initial_selection_index : ℤ
  pub row_count : Option ℕ
  pub row_identity : Option (ℕ → Option Bytes)

-- The windows tab, a tab with a provider, or a tab without.
pub data Tab : Type 0 where
  windows : Tab
  provided : Provider → Tab
  unprovided : Tab

-- The fields of `AppData` that the selection reads, with the number of lines of the display.
pub record AppData : Type 0 where
  pub current_tab : Tab
  pub filtered : List WindowInfo
  pub max_lines : ℕ
  pub selection : SelectionState

abbrev pub with_selection : AppData → SelectionState → AppData
with_selection app s = record app { selection = s }

-- `provider->row_count ? provider->row_count(app) : 0`
abbrev pub row_count_of : Provider → ℕ
row_count_of p = elim p.row_count [ none ↦ 0 | some n ↦ n ]

-- The id of the window at an index, 0 if there is none.
unfoldable pub id_at : List WindowInfo → ℕ → ℕ
id_at ws i = elim (get_elem? ws i) [ none ↦ 0 | some w ↦ w.id ]

pub init_selection : AppData → AppData
init_selection app = with_selection app (record {
  window_index = 0;
  selected_window_id = 0;
  selected_provider_id = [];
  provider_index = 0;
  window_scroll_offset = 0;
  provider_scroll_offset = 0;
})

-- The provider's first index, kept among its rows.
unfoldable pub initial_row : Provider → ℕ
initial_row p = elim p.initial_selection_index [
  | negsuc n ↦ 0
  | pos i ↦
      if ltb 0 (row_count_of p) && leb (row_count_of p) i
      then row_count_of p - 1
      else if row_count_of p == 0
      then 0
      else i
]

unfoldable pub reset_selection_at : Tab → List WindowInfo → SelectionState → SelectionState
reset_selection_at Tab.windows ws s = record s {
  window_index = 0;
  selected_window_id = id_at ws 0;
  window_scroll_offset = 0;
}
reset_selection_at (Tab.provided p) ws s = record s {
  provider_index = initial_row p;
  selected_provider_id = [];
  provider_scroll_offset = 0;
}
reset_selection_at Tab.unprovided ws s = s

pub reset_selection : AppData → AppData
reset_selection app =
    with_selection app (reset_selection_at app.current_tab app.filtered app.selection)

pub get_selected_window : AppData → Option WindowInfo
get_selected_window app = elim app.current_tab [
  | Tab.windows ↦ get_elem? app.filtered app.selection.window_index
  | _ ↦ none
]

unfoldable pub index_in : Tab → SelectionState → ℕ
index_in Tab.windows s = s.window_index
index_in (Tab.provided p) s = s.provider_index
index_in Tab.unprovided s = 0

unfoldable pub offset_in : Tab → SelectionState → ℕ
offset_in Tab.windows s = s.window_scroll_offset
offset_in (Tab.provided p) s = s.provider_scroll_offset
offset_in Tab.unprovided s = 0

unfoldable pub set_offset_in : Tab → SelectionState → ℕ → SelectionState
set_offset_in Tab.windows s offset = record s { window_scroll_offset = offset }
set_offset_in (Tab.provided p) s offset = record s { provider_scroll_offset = offset }
set_offset_in Tab.unprovided s offset = s

unfoldable pub total_in : Tab → List WindowInfo → ℕ
total_in Tab.windows ws = length ws
total_in (Tab.provided p) ws = row_count_of p
total_in Tab.unprovided ws = 0

pub get_selected_index : AppData → ℕ
get_selected_index app = index_in app.current_tab app.selection

pub get_scroll_offset : AppData → ℕ
get_scroll_offset app = offset_in app.current_tab app.selection

pub set_scroll_offset : AppData → ℕ → AppData
set_scroll_offset app offset =
    with_selection app (set_offset_in app.current_tab app.selection offset)

-- The offset that brings a row on screen, for the old offset, the lines of the display and the rows.
unfoldable pub scroll_to : ℕ → ℕ → ℕ → ℕ → ℕ
scroll_to selected offset lines total =
    if leb total lines
    then 0
    else (let next =
          (if ltb selected offset
            then selected
            else if leb (offset + lines) selected
            then selected - lines + 1
            else offset) in
        if ltb (total - lines) next then total - lines else next)

pub update_scroll_position : AppData → AppData
update_scroll_position app = set_scroll_offset app (
    scroll_to (get_selected_index app) (get_scroll_offset app) app.max_lines
      (total_in app.current_tab app.filtered))

-- The next index up, for the number of rows, which is not 0; from the last row it goes to the first.
unfoldable pub index_up : ℕ → ℕ → ℕ
index_up total i = if ltb i (total - 1) then i + 1 else 0

unfoldable pub index_down : ℕ → ℕ → ℕ
index_down total i = if ltb 0 i then i - 1 else total - 1

-- The index is replaced, and on the windows tab the id of the selected window with it.
unfoldable pub select : Tab → List WindowInfo → SelectionState → ℕ → SelectionState
select Tab.windows ws s i = record s { window_index = i; selected_window_id = id_at ws i }
select (Tab.provided p) ws s i = record s { provider_index = i }
select Tab.unprovided ws s i = s

-- A move by a function on indices does nothing without rows.
unfoldable pub move_by : (ℕ → ℕ → ℕ) → AppData → AppData
move_by next app =
    if total_in app.current_tab app.filtered == 0
    then app
    else update_scroll_position (
        with_selection app (
          select app.current_tab app.filtered app.selection
            (next (total_in app.current_tab app.filtered) (get_selected_index app))))

pub move_selection_up : AppData → AppData
move_selection_up app = move_by index_up app

pub move_selection_down : AppData → AppData
move_selection_down app = move_by index_down app

-- `provider_id_max` bytes hold the identity; without one it is empty.
unfoldable pub preserved_id : Provider → ℕ → Bytes
preserved_id p i = elim p.row_identity [
  | none ↦ []
  | some identity ↦
      if ltb i (row_count_of p)
      then elim (identity i) [ none ↦ [] | some id ↦ copy_to provider_id_max id ]
      else []
]

unfoldable pub preserve_at : Tab → List WindowInfo → SelectionState → SelectionState
preserve_at Tab.windows ws s =
    if ltb s.window_index (length ws)
    then record s { selected_window_id = id_at ws s.window_index }
    else s
preserve_at (Tab.provided p) ws s = record s {
  selected_provider_id = preserved_id p s.provider_index;
}
preserve_at Tab.unprovided ws s = record s { selected_provider_id = [] }

pub preserve_selection : AppData → AppData
preserve_selection app = with_selection app (preserve_at app.current_tab app.filtered app.selection)

unfoldable pub is_identity : (ℕ → Option Bytes) → Bytes → ℕ → Bool
is_identity identity wanted i = elim (identity i) [ none ↦ false | some id ↦ bytes_eq id wanted ]

-- The first row from `i` on, among `left` rows, with an identity.
unfoldable pub find_row : (ℕ → Option Bytes) → Bytes → ℕ → ℕ → Option ℕ
find_row identity wanted i zero = none
find_row identity wanted i (suc left) =
    let later = find_row identity wanted (i + 1) left in
    if is_identity identity wanted i then some i else later

-- The provider's first index if it is a row, else 0.
unfoldable pub restart_row : Provider → ℕ
restart_row p = elim p.initial_selection_index [
  | negsuc n ↦ 0
  | pos i ↦ if leb (row_count_of p) i then 0 else i
]

unfoldable pub restored_row : Provider → Bytes → ℕ
restored_row p wanted = elim p.row_identity [
  | none ↦ restart_row p
  | some identity ↦
      if ltb 0 (row_count_of p) && not (is_empty wanted)
      then elim (find_row identity wanted 0 (row_count_of p)) [ none ↦ restart_row p | some i ↦ i ]
      else restart_row p
]

unfoldable pub restore_window : List WindowInfo → SelectionState → SelectionState
restore_window ws s =
    let first = record s { window_index = 0; selected_window_id = id_at ws 0 } in
    if s.selected_window_id == 0
    then first
    else elim (find_index (λ w. w.id == s.selected_window_id) ws) [
      | none ↦ first
      | some i ↦ record s { window_index = i }
    ]

unfoldable pub restore_at : Tab → List WindowInfo → SelectionState → SelectionState
restore_at Tab.windows ws s = restore_window ws s
restore_at (Tab.provided p) ws s = record s {
  provider_index = restored_row p s.selected_provider_id;
}
restore_at Tab.unprovided ws s = s

pub restore_selection : AppData → AppData
restore_selection app =
    update_scroll_position
      (with_selection app (restore_at app.current_tab app.filtered app.selection))

unfoldable pub validate_at : Tab → List WindowInfo → SelectionState → SelectionState
validate_at Tab.windows ws s =
    if length ws == 0
    then record s { window_index = 0; selected_window_id = 0 }
    else if leb (length ws) s.window_index
    then record s { window_index = length ws - 1; selected_window_id = id_at ws (length ws - 1) }
    else s
validate_at (Tab.provided p) ws s = elim p.row_count [
  | none ↦ s
  | some count ↦
      if ltb 0 count && leb count s.provider_index
      then record s { provider_index = count - 1 }
      else if count == 0
      then record s { provider_index = 0 }
      else s
]
validate_at Tab.unprovided ws s = s

pub validate_selection : AppData → AppData
validate_selection app = with_selection app (validate_at app.current_tab app.filtered app.selection)

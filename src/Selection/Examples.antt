-- ===== src/Selection/Examples.antt =====
-- Runs of the selection with two windows.
use cofi.Prelude.{pos, ◌≡◌, ◌<◌, refl, arith, [], ◌∷◌, none, some, find_index}
use cofi.Matching.Examples.{editor, shell}
use cofi.Windows.{WindowInfo}
use cofi.Selection.{
  AppData, Tab, Provider, SelectionState, total_in, index_in, get_selected_index, get_scroll_offset,
  get_selected_window, move_selection_up, move_selection_down, preserve_selection,
  restore_selection,
}
use cofi.Selection.Scroll.{InView}
use cofi.Selection.Moves.{IsNextRow, RowAndScreen, move_lem}
use cofi.Selection.Filtering.{windows_tab, restore_lem, selection_kept}

-- The second window is selected, and the display has one line.
abbrev second : SelectionState
second = record {
  window_index = 1;
  selected_window_id = 9;
  selected_provider_id = [];
  provider_index = 0;
  window_scroll_offset = 0;
  provider_scroll_offset = 0;
}

abbrev tab : AppData
tab = windows_tab (editor ∷ shell ∷ []) 1 second

-- A provider with five rows that starts at the third.
abbrev provider : Provider
provider = record { initial_selection_index = pos 2; row_count = some 5; row_identity = none }

one_of_two : get_selected_index tab < total_in tab.current_tab tab.filtered
unfolding get_selected_index index_in total_in
one_of_two = omega arith

move_lem_example :
    IsNextRow
      (total_in Tab.windows tab.filtered)
      (get_selected_index tab)
      (get_selected_index (move_selection_up tab))
    × IsNextRow
        (total_in Tab.windows tab.filtered)
        (get_selected_index (move_selection_down tab))
        (get_selected_index tab)
    × RowAndScreen tab (move_selection_up tab)
    × RowAndScreen tab (move_selection_down tab)
move_lem_example = move_lem tab one_of_two (omega arith)

two_rows : 0 < total_in tab.current_tab tab.filtered
unfolding total_in
two_rows = omega arith

restore_lem_example :
    (get_selected_index (restore_selection tab) < total_in Tab.windows tab.filtered)
    × InView
        (get_selected_index (restore_selection tab))
        (get_scroll_offset (restore_selection tab))
        1
        (total_in Tab.windows tab.filtered)
restore_lem_example = restore_lem tab two_rows (omega arith)

-- The filter leaves the windows in the other order.
selection_kept_example :
    (v : WindowInfo) × (get_selected_window
        (restore_selection (record (preserve_selection tab) { filtered = shell ∷ editor ∷ [] }))
      ≡ some v)
    × (v.id ≡ 9)
unfolding get_selected_window find_index
selection_kept_example =
    selection_kept (editor ∷ shell ∷ []) (shell ∷ editor ∷ []) 1 second shell refl
      (λ e. ground arith) refl

five_rows : 0 < total_in (Tab.provided provider) []
unfolding total_in
five_rows = omega arith

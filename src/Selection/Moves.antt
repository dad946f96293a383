-- ===== src/Selection/Moves.antt =====
-- src/core/selection/selection.c: the moves up and down.
use cofi.Prelude.{ℕ, suc, ◌⊎◌, ◌<◌, ◌≡◌, refl, ◌∙◌, arith, List, false, Bool-cases, inl, inr, ◌==◌}
use cofi.Windows.{WindowInfo}
use cofi.Selection.{
  SelectionState, Tab, AppData, with_selection, index_in, total_in, get_selected_index,
  get_scroll_offset, index_up, index_down, select, move_by, move_selection_up, move_selection_down,
}
use cofi.Selection.Scroll.{InView, index-update, rows-update, update_scroll_lem}

index_in-select :
    (tab : Tab) (ws : List WindowInfo) (s : SelectionState) (i : ℕ)
    → 0 < total_in tab ws
    → index_in tab (select tab ws s i) ≡ i
unfolding index_in select total_in
index_in-select Tab.windows ws s i rows = refl
index_in-select (Tab.provided p) ws s i rows = refl
index_in-select Tab.unprovided ws s i rows = absurd (omega arith)

index_of_select :
    (app : AppData) (i : ℕ)
    → 0 < total_in app.current_tab app.filtered
    → get_selected_index (with_selection app (select app.current_tab app.filtered app.selection i))
      ≡ i
unfolding get_selected_index
index_of_select app i rows = index_in-select app.current_tab app.filtered app.selection i rows

positive : (n : ℕ) → 0 < n → (n == 0) ≡ false
positive n h = ground arith

index-move_by :
    (next : ℕ → ℕ → ℕ) (app : AppData)
    → 0 < total_in app.current_tab app.filtered
    → get_selected_index (move_by next app)
      ≡ next (total_in app.current_tab app.filtered) (get_selected_index app)
unfolding move_by
index-move_by next app rows =
    rw (positive (total_in app.current_tab app.filtered) rows)
      (index-update _ ∙ index_of_select app _ rows)

-- A move keeps the tab and its rows.
rows-move_by :
    (next : ℕ → ℕ → ℕ) (app : AppData)
    → total_in (move_by next app).current_tab (move_by next app).filtered
      ≡ total_in app.current_tab app.filtered
unfolding move_by
rows-move_by next app = elim (Bool-cases (total_in app.current_tab app.filtered == 0)) [
  | inl e ↦ rw e refl
  | inr e ↦ rw e (rows-update _)
]

down_of_up : (n i : ℕ) → i < n → index_down n (index_up n i) ≡ i
unfolding index_down index_up
down_of_up n i lt = ground arith

up_of_down : (n i : ℕ) → i < n → index_up n (index_down n i) ≡ i
unfolding index_down index_up
up_of_down n i lt = ground arith

up_stays : (n i : ℕ) → i < n → index_up n i < n
unfolding index_up
up_stays n i lt = ground arith

down_stays : (n i : ℕ) → i < n → index_down n i < n
unfolding index_down
down_stays n i lt = ground arith

-- A move up is undone by a move down, and a move down by a move up, also where they go around the
-- ends of the rows, if the selected row is one of the tab's.
pub up-down_inverse :
    (app : AppData)
    → get_selected_index app < total_in app.current_tab app.filtered
    → (get_selected_index (move_selection_down (move_selection_up app)) ≡ get_selected_index app)
      × (get_selected_index (move_selection_up (move_selection_down app)) ≡ get_selected_index app)
unfolding move_selection_up move_selection_down
up-down_inverse app lt =
    (after index_up index_down down_of_up, after index_down index_up up_of_down)
  where
    after :
        (first second : ℕ → ℕ → ℕ)
        → ((n i : ℕ) → i < n → second n (first n i) ≡ i)
        → get_selected_index (move_by second (move_by first app)) ≡ get_selected_index app
    after first second undo =
        index-move_by second (move_by first app) (rw (rows-move_by first app) (omega arith))
        ∙ rw (rows-move_by first app, index-move_by first app (omega arith))
            (undo (total_in app.current_tab app.filtered) (get_selected_index app) lt)

view-move_by :
    (next : ℕ → ℕ → ℕ) (app : AppData)
    → ((n i : ℕ) → i < n → next n i < n)
    → get_selected_index app < total_in app.current_tab app.filtered
    → 0 < app.max_lines
    → InView
        (get_selected_index (move_by next app))
        (get_scroll_offset (move_by next app))
        app.max_lines
        (total_in app.current_tab app.filtered)
unfolding move_by
view-move_by next app stays lt line =
    rw (positive (total_in app.current_tab app.filtered) (omega arith))
      (update_scroll_lem (with_selection app (select app.current_tab app.filtered app.selection _))
        (rw
          (index_of_select app
            (next (total_in app.current_tab app.filtered) (get_selected_index app)) (omega arith))
          (stays (total_in app.current_tab app.filtered) (get_selected_index app) lt))
        line).0

-- One row further, and from the last row to the first.
abbrev pub IsNextRow : ℕ → ℕ → ℕ → Type 0
IsNextRow n i j = ((suc i < n) × (j ≡ suc i)) ⊎ ((suc i ≡ n) × (j ≡ 0))

abbrev pub RowAndScreen : AppData → AppData → Type 0
RowAndScreen app after =
    (get_selected_index after < total_in app.current_tab app.filtered)
    × InView (get_selected_index after) (get_scroll_offset after) app.max_lines
        (total_in app.current_tab app.filtered)

index_up-IsNextRow : (n i : ℕ) → i < n → IsNextRow n i (index_up n i)
unfolding index_up
index_up-IsNextRow n i lt = ground arith

IsNextRow-index_down : (n i : ℕ) → i < n → IsNextRow n (index_down n i) i
unfolding index_down
IsNextRow-index_down n i lt = ground arith

-- On a screen that has a line, and from a row of the tab: a move up selects the row with the next
-- index, from the last row the first, a move down selects the row of which that is the next, from the
-- first row the last, and either is then a row of the tab that is on screen.
pub move_lem :
    (app : AppData)
    → get_selected_index app < total_in app.current_tab app.filtered
    → 0 < app.max_lines
    → IsNextRow
        (total_in app.current_tab app.filtered)
        (get_selected_index app)
        (get_selected_index (move_selection_up app))
      × IsNextRow
          (total_in app.current_tab app.filtered)
          (get_selected_index (move_selection_down app))
          (get_selected_index app)
      × RowAndScreen app (move_selection_up app)
      × RowAndScreen app (move_selection_down app)
unfolding move_selection_up move_selection_down
move_lem app lt line =
    let n = total_in app.current_tab app.filtered in
    let i = get_selected_index app in
    (
      rw (index-move_by index_up app (omega arith)) (index_up-IsNextRow n i lt),
      rw (index-move_by index_down app (omega arith)) (IsNextRow-index_down n i lt),
      (
        rw (index-move_by index_up app (omega arith)) (up_stays n i lt),
        view-move_by index_up app up_stays lt line,
      ),
      (
        rw (index-move_by index_down app (omega arith)) (down_stays n i lt),
        view-move_by index_down app down_stays lt line,
      ),
    )

-- ===== src/Selection/Scroll.antt =====
-- src/core/selection/selection.c: what is on screen.
use cofi.Prelude.{min, ℕ, ◌+◌, ◌≤◌, ◌<◌, ◌≡◌, refl, arith, List}
use cofi.Windows.{WindowInfo}
use cofi.Selection.{
  SelectionState, Tab, AppData, index_in, offset_in, set_offset_in, total_in, get_selected_index,
  get_scroll_offset, set_scroll_offset, scroll_to, update_scroll_position,
}

-- The selected row is on screen, and the screen has no line behind the last row, unless all fit.
abbrev pub InView : ℕ → ℕ → ℕ → ℕ → Type 0
InView selected offset lines total =
    (offset ≤ selected) × (selected < offset + lines) × (offset + min lines total ≤ total)

scroll_to-InView :
    (selected offset lines total : ℕ)
    → selected < total
    → 0 < lines
    → InView selected (scroll_to selected offset lines total) lines total
unfolding scroll_to
scroll_to-InView selected offset lines total lt some_line = ground arith

offset_in-set :
    (tab : Tab) (ws : List WindowInfo) (s : SelectionState) (offset : ℕ)
    → 0 < total_in tab ws
    → offset_in tab (set_offset_in tab s offset) ≡ offset
unfolding offset_in set_offset_in total_in
offset_in-set Tab.windows ws s offset rows = refl
offset_in-set (Tab.provided p) ws s offset rows = refl
offset_in-set Tab.unprovided ws s offset rows = absurd (omega arith)

pub index_in-set_offset :
    (tab : Tab) (s : SelectionState) (offset : ℕ)
    → index_in tab (set_offset_in tab s offset) ≡ index_in tab s
unfolding index_in set_offset_in
index_in-set_offset Tab.windows s offset = refl
index_in-set_offset (Tab.provided p) s offset = refl
index_in-set_offset Tab.unprovided s offset = refl

-- The update keeps the tab, its rows and the lines of the display.
pub rows-update :
    (app : AppData)
    → total_in (update_scroll_position app).current_tab (update_scroll_position app).filtered
      ≡ total_in app.current_tab app.filtered
unfolding update_scroll_position set_scroll_offset
rows-update app = refl

pub lines-update : (app : AppData) → (update_scroll_position app).max_lines ≡ app.max_lines
unfolding update_scroll_position set_scroll_offset
lines-update app = refl

pub index-update :
    (app : AppData) → get_selected_index (update_scroll_position app) ≡ get_selected_index app
unfolding get_selected_index update_scroll_position set_scroll_offset
index-update app = index_in-set_offset app.current_tab app.selection _

pub offset-update :
    (app : AppData)
    → 0 < total_in app.current_tab app.filtered
    → get_scroll_offset (update_scroll_position app)
      ≡ scroll_to
          (get_selected_index app)
          (get_scroll_offset app)
          app.max_lines
          (total_in app.current_tab app.filtered)
unfolding get_scroll_offset update_scroll_position set_scroll_offset
offset-update app rows = offset_in-set app.current_tab app.filtered app.selection _ rows

-- After the screen is updated it shows the selected row, if that is one of the tab's rows and the
-- display has a line, and the update keeps the selected row.
pub update_scroll_lem :
    (app : AppData)
    → get_selected_index app < total_in app.current_tab app.filtered
    → 0 < app.max_lines
    → InView
        (get_selected_index (update_scroll_position app))
        (get_scroll_offset (update_scroll_position app))
        app.max_lines
        (total_in app.current_tab app.filtered)
      × (get_selected_index (update_scroll_position app) ≡ get_selected_index app)
update_scroll_lem app lt line = (
  rw (index-update app, offset-update app (omega arith))
      (scroll_to-InView (get_selected_index app) (get_scroll_offset app) app.max_lines
        (total_in app.current_tab app.filtered) lt line),
  index-update app,
)

-- ===== src/Selection/Filtering.antt =====
-- src/core/selection/selection.c: the selection while the filter changes the rows.
use cofi.Prelude.{
  min, ◌-◌, ℕ, zero, suc, ◌+◌, ◌<◌, ◌≡◌, ◌≢◌, refl, sym, ap, ◌∙◌, arith, List, [], ◌∷◌, true, false,
  not, ◌&&◌, Option, some, Bytes, is_empty, length, get_elem?, find_index, find_index-lt,
  find_first, find_first_of_find_index, ltb, ltb_iff, ◌==◌, ==_iff, Bool-cases, Option-cases, inl,
  inr,
}
use cofi.Windows.{WindowInfo}
use cofi.Selection.{
  SelectionState, Provider, Tab, AppData, with_selection, row_count_of, id_at, get_selected_window,
  index_in, total_in, get_selected_index, preserve_selection, preserve_at, restore_selection,
  restore_at, restore_window, validate_at, get_scroll_offset, update_scroll_position,
  set_scroll_offset, set_offset_in, restored_row, restart_row, find_row, is_identity,
}
use cofi.Selection.Scroll.{InView, index-update, update_scroll_lem}

find_row-lt :
    (identity : ℕ → Option Bytes) (wanted : Bytes) (i left : ℕ) {n : ℕ}
    → find_row identity wanted i left ≡ some n
    → (n < i + left) × (is_identity identity wanted n ≡ true)
unfolding find_row
find_row-lt identity wanted i zero e = ground arith
find_row-lt identity wanted i (suc left) {n} e = elim (Bool-cases (is_identity identity wanted i)) [
  | inl hit ↦ ground (arith, hit)
  | inr miss ↦ later (find_row-lt identity wanted (i + 1) left (sym (rw miss refl) ∙ e))
]
  where
    later :
        (n < i + 1 + left) × (is_identity identity wanted n ≡ true)
        → (n < i + suc left) × (is_identity identity wanted n ≡ true)
    later h = ground (arith, h)

restart_row-lt : (p : Provider) → 0 < row_count_of p → restart_row p < row_count_of p
unfolding restart_row
restart_row-lt p rows = ground arith

restored_row-lt :
    (p : Provider) (wanted : Bytes) → 0 < row_count_of p → restored_row p wanted < row_count_of p
unfolding restored_row restart_row
restored_row-lt p wanted rows = elim (Option-cases p.row_identity) [
  | inl e ↦ rw e (restart_row-lt p rows)
  | inr (identity, e) ↦ rw e (elim (Bool-cases (ltb 0 (row_count_of p) && not (is_empty wanted))) [
    | inr c ↦ rw c (restart_row-lt p rows)
    | inl c ↦ rw c (elim (Option-cases (find_row identity wanted 0 (row_count_of p))) [
      | inl none_found ↦ rw none_found (restart_row-lt p rows)
      | inr (n, found) ↦
          rw found (omega (arith, (find_row-lt identity wanted 0 (row_count_of p) found).0))
    ])
  ])
]

restore_window-lt :
    (ws : List WindowInfo) (s : SelectionState)
    → 0 < length ws
    → (restore_window ws s).window_index < length ws
unfolding restore_window
restore_window-lt ws s rows = elim (Bool-cases (s.selected_window_id == 0)) [
  | inl zero_id ↦ rw zero_id rows
  | inr id ↦ rw id (elim (Option-cases (find_index (λ w. w.id == s.selected_window_id) ws)) [
    | inl e ↦ rw e rows
    | inr (i, e) ↦ rw e (find_index-lt (λ (w : WindowInfo). w.id == s.selected_window_id) ws e)
  ])
]

restore_at-lt :
    (tab : Tab) (ws : List WindowInfo) (s : SelectionState)
    → 0 < total_in tab ws
    → index_in tab (restore_at tab ws s) < total_in tab ws
unfolding restore_at index_in total_in
restore_at-lt Tab.windows ws s rows = restore_window-lt ws s rows
restore_at-lt (Tab.provided p) ws s rows = restored_row-lt p s.selected_provider_id rows
restore_at-lt Tab.unprovided ws s rows = absurd (omega arith)

index_restored :
    (app : AppData)
    → 0 < total_in app.current_tab app.filtered
    → get_selected_index
        (with_selection app (restore_at app.current_tab app.filtered app.selection))
      < total_in app.current_tab app.filtered
unfolding get_selected_index
index_restored app rows = restore_at-lt app.current_tab app.filtered app.selection rows

-- After the selection is restored the selected row is one of the tab's rows, if it has any, whatever
-- was selected before, and it is on screen if the display has a line.
pub restore_lem :
    (app : AppData)
    → 0 < total_in app.current_tab app.filtered
    → 0 < app.max_lines
    → (get_selected_index (restore_selection app) < total_in app.current_tab app.filtered)
      × InView
          (get_selected_index (restore_selection app))
          (get_scroll_offset (restore_selection app))
          app.max_lines
          (total_in app.current_tab app.filtered)
unfolding restore_selection
restore_lem app rows line = (
  rw (index-update (with_selection app (restore_at app.current_tab app.filtered app.selection)))
      row,
  (update_scroll_lem (with_selection app (restore_at app.current_tab app.filtered app.selection))
      row line).0,
)
  where
    row :
        get_selected_index
          (with_selection app (restore_at app.current_tab app.filtered app.selection))
        < total_in app.current_tab app.filtered
    row = index_restored app rows

-- The windows tab with its windows, the lines of the display and the selection.
abbrev pub windows_tab : List WindowInfo → ℕ → SelectionState → AppData
windows_tab ws lines s = record {
  current_tab = Tab.windows;
  filtered = ws;
  max_lines = lines;
  selection = s;
}

get_elem?-lt :
    (ws : List WindowInfo) (i : ℕ) {w : WindowInfo} → get_elem? ws i ≡ some w → i < length ws
get_elem?-lt [] i e = ground arith
get_elem?-lt (v ∷ ws) zero e = omega arith
get_elem?-lt (v ∷ ws) (suc i) e = omega (arith, get_elem?-lt ws i e)

id_at-some :
    (ws : List WindowInfo) (i : ℕ) {w : WindowInfo} → get_elem? ws i ≡ some w → id_at ws i ≡ w.id
unfolding id_at
id_at-some ws i e = rw (e, id_at) refl

preserved :
    (ws : List WindowInfo) (s : SelectionState) {w : WindowInfo}
    → get_elem? ws s.window_index ≡ some w
    → preserve_at Tab.windows ws s ≡ record s { selected_window_id = w.id }
unfolding preserve_at
preserved ws s e =
    rw ((ltb_iff s.window_index (length ws)).1 (get_elem?-lt ws s.window_index e))
      (ap (λ (k : ℕ). record s { selected_window_id = k }) (id_at-some ws s.window_index e))

restored :
    (ws : List WindowInfo) (s : SelectionState) {i : ℕ}
    → s.selected_window_id ≢ 0
    → find_index (λ v. v.id == s.selected_window_id) ws ≡ some i
    → restore_window ws s ≡ record s { window_index = i }
unfolding restore_window
restored ws s real found = simp (not_zero s.selected_window_id real, found) refl
  where
    not_zero : (n : ℕ) → n ≢ 0 → (n == 0) ≡ false
    not_zero n h = ground arith

-- The window that was selected before the filter changed is selected after it too, wherever it stands
-- now, if it is among the windows that the filter left and its number is not 0.
pub selection_kept :
    (before after : List WindowInfo) (lines : ℕ) (s : SelectionState) (w : WindowInfo) {i : ℕ}
    → get_selected_window (windows_tab before lines s) ≡ some w
    → w.id ≢ 0
    → find_index (λ v. v.id == w.id) after ≡ some i
    → (v : WindowInfo) × (get_selected_window (
          restore_selection
            (record (preserve_selection (windows_tab before lines s)) { filtered = after }))
        ≡ some v)
      × (v.id ≡ w.id)
unfolding get_selected_window preserve_selection restore_selection restore_at update_scroll_position
    set_scroll_offset set_offset_in
selection_kept before after lines s w {i} selected real found =
    go (find_first_of_find_index (λ (v : WindowInfo). v.id == w.id) after found)
  where
    chosen : (restore_window after (preserve_at Tab.windows before s)).window_index ≡ i
    chosen = rw (preserved before s selected) (
        ap (λ (r : SelectionState). r.window_index)
          (restored after (record s { selected_window_id = w.id }) real found))

    go :
        (v : WindowInfo) × (find_first (λ u. u.id == w.id) after ≡ some v)
          × ((v.id == w.id) ≡ true)
          × (get_elem? after i ≡ some v)
        → (v : WindowInfo) × (get_elem? after
              (restore_window after (preserve_at Tab.windows before s)).window_index
            ≡ some v)
          × (v.id ≡ w.id)
    go (v, first, same, at) = (v, rw chosen at, (==_iff v.id w.id).0 same)

-- Validation leaves an index that is one of the tab's rows, and puts any other at the last row, if the
-- tab has rows.
pub index_in-validate_at :
    (tab : Tab) (ws : List WindowInfo) (s : SelectionState)
    → 0 < total_in tab ws
    → index_in tab (validate_at tab ws s) ≡ min (index_in tab s) (total_in tab ws - 1)
unfolding validate_at index_in total_in
index_in-validate_at Tab.windows ws s rows = ground arith
index_in-validate_at (Tab.provided p) ws s rows = ground arith
index_in-validate_at Tab.unprovided ws s rows = absurd (omega arith)

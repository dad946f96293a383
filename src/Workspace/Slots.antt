-- ===== src/Workspace/Slots.antt =====
-- The assignment of the slots 1 to 9, src/harpoon/workspace_slots.c: the candidates among the windows,
-- those that show, their order by columns or rows, and the window of a slot. What the X server says
-- is a record; the comparison of a share with the threshold, in doubles, and `qsort` are parameters.
pub mod Columns
pub mod Lookup
pub mod Shown
use cofi.Prelude.{
  ℕ, zero, suc, ◌+◌, ◌-◌, Bool, true, false, not, ◌&&◌, ◌||◌, List, [], ◌∷◌, ◌++◌, map, Option,
  none, some, ℤ, pos, negsuc, pos_part, eq_ℤ, Bytes, codes, bytes_eq, length, take, get_or, ◌==◌,
  leb, ltb, if◌then◌else◌,
}
use cofi.Windows.{WindowInfo}
use cofi.Workspace.Rects.{Rect}
use cofi.Workspace.Visible.{FrameExtents, WindowPosition}
use cofi.Workspace.Largest.{Measure, total_area, compute_visible_fraction}

abbrev pub row_threshold : ℕ
row_threshold = 100

abbrev pub min_visible_dim : ℕ
min_visible_dim = 8

abbrev pub max_workspace_slots : ℕ
max_workspace_slots = 9

-- Position and size of a window.
pub record Geometry : Type 0 where
  pub x : ℕ
  pub y : ℕ
  pub w : ℕ
  pub h : ℕ

-- What the X server says of its windows; `none` where a request fails.
pub record Server : Type 0 where
  pub current_desktop : ℤ
  pub is_hidden : ℕ → Bool
  pub is_shaded : ℕ → Bool
  pub geometry : ℕ → Option Geometry
  pub frame_extents : ℕ → Option FrameExtents
  pub gtk_frame_extents : ℕ → Option FrameExtents
  pub stacking_order : List ℕ
  pub monitor_clips : List Rect

abbrev neg_part : ℤ → ℕ
neg_part (pos n) = 0
neg_part (negsuc n) = n + 1

abbrev moved_by : ℕ → ℤ → ℕ
moved_by x d = (x + pos_part d) - neg_part d

-- The size less two insets, and 0 where the code has a negative number.
abbrev less_both : ℕ → ℤ → ℤ → ℕ
less_both w a b = (w + neg_part a + neg_part b) - (pos_part a + pos_part b)

abbrev no_frame : FrameExtents
no_frame = record { left = pos 0; right = pos 0; top = pos 0; bottom = pos 0 }

-- `none` if nothing is left of the window.
abbrev pub shrink_candidate_to_visible_csd_rect : Server → ℕ → Geometry → Option Geometry
shrink_candidate_to_visible_csd_rect server id g = elim (server.gtk_frame_extents id) [
  | none ↦ some g
  | some gtk ↦
      let w = less_both g.w gtk.left gtk.right in
      let h = less_both g.h gtk.top gtk.bottom in
      if eq_ℤ gtk.left (pos 0)
        && eq_ℤ gtk.right (pos 0)
        && eq_ℤ gtk.top (pos 0)
        && eq_ℤ gtk.bottom (pos 0)
      then some g
      else if leb 1 w && leb 1 h
      then some (record { x = moved_by g.x gtk.left; y = moved_by g.y gtk.top; w = w; h = h })
      else none
]

-- The window is on the desktop, shown, and not cofi's own.
abbrev pub is_candidate : Server → ℕ → WindowInfo → Bool
is_candidate server own_window_id win =
    if eq_ℤ win.desktop (negsuc 0) && not (bytes_eq win.type (codes "Normal"))
    then false
    else if not (eq_ℤ win.desktop server.current_desktop) && not (eq_ℤ win.desktop (negsuc 0))
    then false
    else if win.id == own_window_id
    then false
    else if server.is_hidden win.id
    then false
    else not (server.is_shaded win.id)

abbrev pub candidate_of : Server → WindowInfo → Option WindowPosition
candidate_of server win = elim (server.geometry win.id) [
  | none ↦ none
  | some g ↦ elim (shrink_candidate_to_visible_csd_rect server win.id g) [
    | none ↦ none
    | some shrunk ↦ some (record {
      id = win.id;
      x = shrunk.x;
      y = shrunk.y;
      w = shrunk.w;
      h = shrunk.h;
      frame = elim (server.frame_extents win.id) [ none ↦ no_frame | some frame ↦ frame ];
    })
  ]
]

unfoldable pub candidates : Server → ℕ → List WindowInfo → List WindowPosition
candidates server own_window_id [] = []
candidates server own_window_id (win ∷ windows) =
    let rest = candidates server own_window_id windows in
    if not (is_candidate server own_window_id win)
    then rest
    else elim (candidate_of server win) [ none ↦ rest | some candidate ↦ candidate ∷ rest ]

abbrev pub threshold_pct : ℤ → ℕ
threshold_pct (negsuc n) = 5
threshold_pct (pos n) = if n == 0 || ltb 100 n then 5 else n

-- `below area total pct` stands for `(double)area / total < pct / 100.0`.
module _ (below : ℕ → ℕ → ℕ → Bool) (server : Server) (pct : ℕ) where
  -- Enough of the candidate shows, in all and in one piece.
  abbrev pub shows_enough : WindowPosition → Measure → Bool
  shows_enough candidate m =
      let total = total_area candidate in
      if total == 0
      then false
      else if below m.visible_area total pct
      then false
      else if below m.largest_area total pct
      then false
      else not (
          ltb (m.largest.x2 - m.largest.x1) min_visible_dim
          || ltb (m.largest.y2 - m.largest.y1) min_visible_dim)

  -- The loop over candidates[i], those before i in `done`. It writes the place of the largest piece into
  -- the array, where the candidates behind it see it.
  unfoldable pub visible_loop : List WindowPosition → List WindowPosition → List WindowPosition
  unfolding compute_visible_fraction
  visible_loop done [] = []
  visible_loop done (c ∷ cs) =
      let m =
        compute_visible_fraction c server.stacking_order (done ++ c ∷ cs) server.monitor_clips in
      let placed = record c { x = m.largest.x1; y = m.largest.y1 } in
      let shown = shows_enough c m in
      let rest = visible_loop (if shown then done ++ placed ∷ [] else done ++ c ∷ []) cs in
      if shown then placed ∷ rest else rest

-- The index of the column or row of each window: a new one starts more than 100 pixels behind the
-- start of the last.
unfoldable pub indices_from : (WindowPosition → ℕ) → ℕ → ℕ → List WindowPosition → List ℕ
indices_from place start index [] = []
indices_from place start index (w ∷ ws) =
    let far = ltb (start + row_threshold) (place w) in
    let index' = if far then index + 1 else index in
    index' ∷ indices_from place (if far then place w else start) index' ws

unfoldable pub assign_indices : (WindowPosition → ℕ) → List WindowPosition → List ℕ
unfolding indices_from
assign_indices place [] = []
assign_indices place (w ∷ ws) = 0 ∷ indices_from place (place w) 0 ws

abbrev pub zip : List WindowPosition → List ℕ → List (WindowPosition × ℕ)
zip (w ∷ ws) (i ∷ is) = (w, i) ∷ zip ws is
zip _ _ = []

-- compare_by_x and compare_by_y: the comparison is negative.
abbrev pub before_by : (WindowPosition → ℕ) → WindowPosition → WindowPosition → Bool
before_by place a b = ltb (place a) (place b)

-- compare_by_col_then_y and compare_by_row_then_x
abbrev pub before_in_group : (WindowPosition → ℕ) → WindowPosition × ℕ → WindowPosition × ℕ → Bool
before_in_group place a b = if a.1 == b.1 then ltb (place a.0) (place b.0) else ltb a.1 b.1

-- `sort_windows` and `sort_indexed` are `qsort` with a comparison: the elements, so that none is after
-- one that the comparison puts behind it.
module _
    (sort_windows : (WindowPosition → WindowPosition → Bool)
      → List WindowPosition
      → List WindowPosition)
    (sort_indexed : (WindowPosition × ℕ → WindowPosition × ℕ → Bool)
      → List (WindowPosition × ℕ)
      → List (WindowPosition × ℕ)) where
  -- By the first place, in groups, and in each group by the second.
  unfoldable pub sort_by :
      (WindowPosition → ℕ) → (WindowPosition → ℕ) → List WindowPosition → List WindowPosition
  unfolding assign_indices
  sort_by first second windows =
      let sorted = sort_windows (before_by first) windows in
      map (λ t. t.0)
        (sort_indexed (before_in_group second) (zip sorted (assign_indices first sorted)))

  unfoldable pub sort_by_column : List WindowPosition → List WindowPosition
  unfolding sort_by
  sort_by_column windows = sort_by (λ w. w.x) (λ w. w.y) windows

  unfoldable pub sort_by_row : List WindowPosition → List WindowPosition
  unfolding sort_by
  sort_by_row windows = sort_by (λ w. w.y) (λ w. w.x) windows

-- The windows of the slots, of which the first is slot 1, and the workspace; -1 before the first
-- assignment.
pub record WorkspaceSlotManager : Type 0 where
  pub slots : List ℕ
  pub workspace : ℤ

abbrev pub init_workspace_slots : WorkspaceSlotManager
init_workspace_slots = record { slots = []; workspace = negsuc 0 }

-- `by_columns` is the setting slot_sort_order.
unfoldable pub assign_workspace_slots :
    (below : ℕ → ℕ → ℕ → Bool)
    (sort_windows : (WindowPosition → WindowPosition → Bool)
      → List WindowPosition
      → List WindowPosition)
    (sort_indexed : (WindowPosition × ℕ → WindowPosition × ℕ → Bool)
      → List (WindowPosition × ℕ)
      → List (WindowPosition × ℕ))
    → Server
    → ℕ
    → ℤ
    → Bool
    → List WindowInfo
    → WorkspaceSlotManager
unfolding visible_loop candidates sort_by_column sort_by_row
assign_workspace_slots below sort_windows sort_indexed server own_window_id pct by_columns windows =
    let visible =
      visible_loop below server (threshold_pct pct) [] (candidates server own_window_id windows) in
    let sorted =
      if by_columns
      then sort_by_column sort_windows sort_indexed visible
      else sort_by_row sort_windows sort_indexed visible in
    record {
      slots = map (λ w. w.id) (take max_workspace_slots sorted);
      workspace = server.current_desktop;
    }

-- 0 stands for no window.
abbrev pub get_workspace_slot_window : WorkspaceSlotManager → ℤ → ℕ
get_workspace_slot_window manager (negsuc n) = 0
get_workspace_slot_window manager (pos n) =
    if ltb n 1 || ltb max_workspace_slots n
    then 0
    else if leb (length manager.slots) (n - 1)
    then 0
    else get_or manager.slots (n - 1) 0

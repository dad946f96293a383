-- ===== src/Workspace/Examples.antt =====
-- Three windows: the second starts where the first ends, and the third covers the left half of the
-- first. In the stack the second is at the bottom, then the first, then the third.
use mathlib.Core.List.{Memᴰ}
use mathlib.Core.List.Memᴰ.{head, tail}
use cofi.Prelude.{
  ℕ, suc, get_elem?, pos, ◌+◌, ◌*◌, ◌<◌, ◌≡◌, ◌⊎◌, refl, Bool, true, false, not, ◌&&◌, List, [],
  ◌∷◌, map, Option, none, some, codes, count_if, find_index, bytes_eq, ◌==◌, ltb, if◌then◌else◌,
  arith, inl, inr,
}
use cofi.Windows.{WindowInfo}
use cofi.Workspace.Rects.{Rect, rect, rect_subtract, rect_intersect, inside}
use cofi.Workspace.Rects.Difference.{one_if, count-rect_subtract}
use cofi.Workspace.Visible.{
  FrameExtents, WindowPosition, outer_rect, content_rect, all_occluders, occluders, split_all,
  visible_region, buffer_full,
}
use cofi.Workspace.Visible.Windows.{shows, visible_region-shows}
use cofi.Workspace.Largest.{
  no_measure, add_fragment, add_clips, add_visible, measure, total_area, compute_visible_fraction,
}
use cofi.Workspace.Largest.Points.{on_monitor, largest-shows}
use cofi.Workspace.Largest.Areas.{measure-add_clips}
use cofi.Workspace.Slots.{
  Geometry, Server, candidates, indices_from, assign_indices, visible_loop, sort_by, sort_by_row,
  sort_by_column, assign_workspace_slots, get_workspace_slot_window,
}
use cofi.Workspace.Slots.Columns.{next_index, assign_indices_lem}
use cofi.Workspace.Slots.Lookup.{order_by, get_workspace_slot_window-Shows}
use cofi.Workspace.Slots.Shown.{IsOf, Shows}

count-rect_subtract_example :
    count_if (inside 5 5) (rect_subtract (rect 0 0 10 10) (rect 2 2 8 4))
    ≡ one_if (inside 5 5 (rect 0 0 10 10) && not (inside 5 5 (rect 2 2 8 4)))
count-rect_subtract_example = count-rect_subtract (rect 0 0 10 10) (rect 2 2 8 4) 5 5 refl

abbrev no_frame : FrameExtents
no_frame = record { left = pos 0; right = pos 0; top = pos 0; bottom = pos 0 }

abbrev window : ℕ → ℕ → ℕ → WindowPosition
window id x w = record { id = id; x = x; y = 0; w = w; h = 100; frame = no_frame }

abbrev first : WindowPosition
first = window 1 0 200

abbrev second : WindowPosition
second = window 2 200 100

abbrev third : WindowPosition
third = window 3 0 100

abbrev all : List WindowPosition
all = first ∷ second ∷ third ∷ []

abbrev stack : List ℕ
stack = 2 ∷ 1 ∷ 3 ∷ []

abbrev monitor : Rect
monitor = rect 0 0 1000 1000

visible_region-shows_example :
    count_if (inside 150 50) (visible_region (occluders first stack all) (outer_rect first ∷ []))
    ≡ one_if (shows first 1 stack all 150 50)
unfolding all_occluders occluders find_index buffer_full split_all rect_subtract
visible_region-shows_example = visible_region-shows first 1 stack all 150 50 refl (omega arith) refl

largest-shows_example :
    (inside 150 50 (content_rect first)
      && (on_monitor 150 50 (monitor ∷ []) && shows first 1 stack all 150 50))
    ≡ true
unfolding all_occluders occluders find_index compute_visible_fraction content_rect total_area
    measure add_visible add_clips add_fragment rect_intersect visible_region split_all rect_subtract
largest-shows_example =
    largest-shows 150 50 first 1 stack all (monitor ∷ []) refl (omega arith) refl

measure-add_clips_example :
    (measure
      (rect 0 0 200 100)
      (monitor ∷ monitor ∷ [])
      (rect 0 0 200 100 ∷ [])
      no_measure).visible_area
    ≡ (measure (rect 0 0 200 100) (monitor ∷ []) (rect 0 0 200 100 ∷ []) no_measure).visible_area
      + (measure (rect 0 0 200 100) (monitor ∷ []) (rect 0 0 200 100 ∷ []) no_measure).visible_area
measure-add_clips_example =
    measure-add_clips (rect 0 0 200 100) monitor monitor [] (rect 0 0 200 100 ∷ [])

-- Windows at 0, 80 and 160: the gaps are 80 pixels, and the third is in a column of its own.
abbrev eighty_apart : List WindowPosition
eighty_apart = window 1 0 50 ∷ window 2 80 50 ∷ window 3 160 50 ∷ []

assign_indices_lem_example :
    (get_elem? (assign_indices (λ w. w.x) eighty_apart) 0 ≡ some 0)
    × (get_elem? (assign_indices (λ w. w.x) eighty_apart) 2
        ≡ some (next_index (λ w. w.x) (window 1 0 50) 0 (window 3 160 50)))
unfolding assign_indices indices_from
assign_indices_lem_example =
    assign_indices_lem (λ w. w.x) (window 1 0 50) (window 2 80 50 ∷ window 3 160 50 ∷ []) 0 1
      (window 1 0 50) (window 3 160 50) 0 refl refl refl tt (omega arith) refl

abbrev below : ℕ → ℕ → ℕ → Bool
below area total pct = ltb (area * 100) (pct * total)

abbrev geometry_of : ℕ → Option Geometry
geometry_of id =
    if id == 1
    then some (record { x = 0; y = 0; w = 200; h = 100 })
    else if id == 2
    then some (record { x = 200; y = 0; w = 100; h = 100 })
    else if id == 3
    then some (record { x = 0; y = 0; w = 100; h = 100 })
    else none

abbrev server : Server
server = record {
  current_desktop = pos 0;
  is_hidden = λ id. false;
  is_shaded = λ id. false;
  geometry = geometry_of;
  frame_extents = λ id. none;
  gtk_frame_extents = λ id. none;
  stacking_order = stack;
  monitor_clips = monitor ∷ [];
}

abbrev info : ℕ → WindowInfo
info id = record {
  id = id;
  title = [];
  class_name = [];
  instance_name = [];
  type = codes "Normal";
  desktop = pos 0;
  pid = pos 1;
}

abbrev infos : List WindowInfo
infos = info 1 ∷ info 2 ∷ info 3 ∷ []

-- Nothing covers the second window, but the first stands at 100 by then, with its full width.
second_lost : map (λ w. w.id) (visible_loop below server 5 [] all) ≡ 1 ∷ 3 ∷ []
unfolding visible_loop all_occluders occluders find_index compute_visible_fraction content_rect
    total_area measure add_visible add_clips add_fragment rect_intersect visible_region split_all
    rect_subtract
second_lost = refl

second_shows :
    map (λ w. w.id) (visible_loop below server 5 (first ∷ []) (second ∷ third ∷ [])) ≡ 2 ∷ 3 ∷ []
unfolding visible_loop all_occluders occluders find_index compute_visible_fraction content_rect
    total_area measure add_visible add_clips add_fragment rect_intersect visible_region split_all
    rect_subtract
second_shows = refl

-- `qsort`, by insertion.
unfoldable insert {ℓ} : {A : Type ℓ} → (A → A → Bool) → A → List A → List A
insert before x [] = x ∷ []
insert before x (y ∷ ys) =
    let rest = insert before x ys in if before y x then y ∷ rest else x ∷ y ∷ ys

unfoldable qsort {ℓ} : {A : Type ℓ} → (A → A → Bool) → List A → List A
unfolding insert
qsort before [] = []
qsort before (x ∷ xs) = insert before x (qsort before xs)

placed-kept {ℓ} :
    {A : Type ℓ} (b : Bool) (x y z : A) (rest ys : List A)
    → (Memᴰ z rest → (z ≡ x) ⊎ Memᴰ z ys)
    → Memᴰ z (if b then y ∷ rest else x ∷ y ∷ ys)
    → (z ≡ x) ⊎ Memᴰ z (y ∷ ys)
placed-kept true x y z rest ys f (head same) = inr (head same)
placed-kept true x y z rest ys f (tail m) = elim (f m) [
  | inl same ↦ inl same
  | inr later ↦ inr (tail later)
]
placed-kept false x y z rest ys f (head same) = inl same
placed-kept false x y z rest ys f (tail m) = inr m

insert-kept {ℓ} :
    {A : Type ℓ} (before : A → A → Bool) (x : A) (ys : List A) (z : A)
    → Memᴰ z (insert before x ys)
    → (z ≡ x) ⊎ Memᴰ z ys
unfolding insert
insert-kept before x [] z (head same) = inl same
insert-kept before x [] z (tail m) = elim m [ ]
insert-kept before x (y ∷ ys) z m =
    placed-kept (before y x) x y z (insert before x ys) ys (λ m'. insert-kept before x ys z m') m

qsort-kept {ℓ} :
    {A : Type ℓ} (before : A → A → Bool) (xs : List A) (z : A)
    → Memᴰ z (qsort before xs)
    → Memᴰ z xs
unfolding qsort
qsort-kept before [] z m = m
qsort-kept before (x ∷ xs) z m = elim (insert-kept before x (qsort before xs) z m) [
  | inl same ↦ head same
  | inr later ↦ tail (qsort-kept before xs z later)
]

get_workspace_slot_window-Shows_example :
    (i : ℕ) × (v : WindowPosition) × (c : WindowPosition) × (pos 2 ≡ pos (suc i))
    × (i < 9)
    × (get_elem?
          (order_by qsort qsort true (visible_loop below server 5 [] (candidates server 9 infos)))
          i
        ≡ some v)
    × (v.id
        ≡ get_workspace_slot_window
            (assign_workspace_slots below qsort qsort server 9 (pos 5) true infos)
            (pos 2))
    × IsOf server 9 infos c
    × Shows below server 5 (candidates server 9 infos) c v
unfolding assign_workspace_slots candidates sort_by sort_by_row sort_by_column assign_indices
    indices_from qsort insert visible_loop all_occluders occluders find_index
    compute_visible_fraction content_rect total_area measure add_visible add_clips add_fragment
    rect_intersect visible_region split_all rect_subtract bytes_eq
get_workspace_slot_window-Shows_example =
    get_workspace_slot_window-Shows qsort qsort (λ before xs z m. qsort-kept before xs z m)
      (λ before xs z m. qsort-kept before xs z m) below server 9 (pos 5) true infos (pos 2)
      (λ e. absurd (omega (arith, e)))

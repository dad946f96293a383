-- ===== src/Workspace/Visible.antt =====
-- What shows of a window that others cover, src/harpoon/workspace_slots.c: the pieces that are left
-- when the windows above it are taken away, and the largest of them. Where the overlay is drawn and
-- the place of the window manager's data on the X server are left out.
pub mod Region
pub mod Windows
use cofi.Prelude.{
  ℕ, zero, suc, ◌+◌, ◌-◌, ◌*◌, Bool, true, false, not, ◌&&◌, ◌||◌, List, [], ◌∷◌, ◌++◌, Option,
  none, some, ℤ, pos_part, length, take, find_index, exists_in, ◌==◌, leb, ltb, if◌then◌else◌,
}
use cofi.Workspace.Rects.{
  Rect, rect, larger, smaller, rect_intersect, rect_area, rect_subtract, has_point,
}

abbrev pub max_occluders : ℕ
max_occluders = 32

abbrev pub max_visible : ℕ
max_visible = max_occluders * 4

pub record FrameExtents : Type 0 where
  pub left : ℤ
  pub right : ℤ
  pub top : ℤ
  pub bottom : ℤ

pub record WindowPosition : Type 0 where
  pub id : ℕ
  pub x : ℕ
  pub y : ℕ
  pub w : ℕ
  pub h : ℕ
  pub frame : FrameExtents

abbrev pub outer_rect : WindowPosition → Rect
outer_rect win = rect win.x win.y (win.x + win.w) (win.y + win.h)

-- The inset, at least 0 and at most `room`.
abbrev pub inset : ℤ → ℕ → ℕ
inset extent room = let n = pos_part extent in if ltb room n then room else n

-- The window without its frame, or all of it if the frame leaves nothing.
unfoldable pub content_rect : WindowPosition → Rect
content_rect win =
    let left = inset win.frame.left win.w in
    let right = inset win.frame.right (win.w - left) in
    let top = inset win.frame.top win.h in
    let bottom = inset win.frame.bottom (win.h - top) in
    let content =
      rect (win.x + left) (win.y + top) (win.x + win.w - right) (win.y + win.h - bottom) in
    if leb content.x2 content.x1 || leb content.y2 content.y1 then outer_rect win else content

-- `none` stands for -1.
abbrev pub get_stack_position : ℕ → List ℕ → Option ℕ
get_stack_position id stack = find_index (λ s. s == id) stack

-- The other window stands above the position in the stack.
abbrev pub is_above : ℕ → List ℕ → ℕ → Bool
is_above position stack id = elim (get_stack_position id stack) [
  | none ↦ false
  | some other ↦ ltb position other
]

-- What the other window can cover of the window.
abbrev pub occluder_of : WindowPosition → WindowPosition → Rect
occluder_of win other =
    rect (larger win.x other.x) (larger win.y other.y) (smaller (win.x + win.w) (other.x + other.w))
      (smaller (win.y + win.h) (other.y + other.h))

unfoldable pub all_occluders : WindowPosition → ℕ → List ℕ → List WindowPosition → List Rect
all_occluders win position stack [] = []
all_occluders win position stack (other ∷ all) =
    let rest = all_occluders win position stack all in
    let r = occluder_of win other in
    if other.id == win.id
    then rest
    else if not (is_above position stack other.id)
    then rest
    else if has_point r
    then r ∷ rest
    else rest

-- The loop ends when the buffer is full. A window that is not in the stack has no occluder.
unfoldable pub occluders : WindowPosition → List ℕ → List WindowPosition → List Rect
unfolding all_occluders
occluders win stack all = elim (get_stack_position win.id stack) [
  | none ↦ []
  | some position ↦ take max_occluders (all_occluders win position stack all)
]

-- One round: the pieces of every visible rectangle, as long as the buffer has room.
unfoldable pub split_all : ℕ → Rect → List Rect → List Rect
unfolding rect_subtract
split_all room occluder [] = []
split_all room occluder (v ∷ vs) =
    let split = take room (rect_subtract v occluder) in
    split ++ split_all (room - length split) occluder vs

-- All rounds. With nothing visible nothing becomes visible: the early exit of the code.
unfoldable pub visible_region : List Rect → List Rect → List Rect
unfolding split_all
visible_region [] visible = visible
visible_region (o ∷ os) visible = visible_region os (split_all max_visible o visible)

-- A round fills the buffer, for which the code logs a warning.
unfoldable pub buffer_full : List Rect → List Rect → Bool
unfolding split_all
buffer_full [] visible = false
buffer_full (o ∷ os) visible =
    let new_visible = split_all max_visible o visible in
    leb max_visible (length new_visible) || buffer_full os new_visible

-- ===== src/Workspace/Largest.antt =====
-- How much of a window shows, and its largest piece: the last part of
-- compute_visible_fraction_and_overlay_center_for_clips in src/harpoon/workspace_slots.c. The code
-- adds areas as doubles, which hold them exactly.
pub mod Points
pub mod Areas
use cofi.Prelude.{
  ℕ, zero, suc, ◌+◌, ◌-◌, ◌*◌, ◌≡◌, refl, Bool, true, false, List, [], ◌∷◌, ◌==◌, ltb,
  if◌then◌else◌,
}
use cofi.Workspace.Rects.{Rect, rect, rect_intersect, rect_area}
use cofi.Workspace.Visible.{WindowPosition, outer_rect, content_rect, occluders, visible_region}

pub record Measure : Type 0 where
  pub visible_area : ℕ
  pub largest_area : ℕ
  pub largest : Rect

abbrev pub no_measure : Measure
no_measure = record { visible_area = 0; largest_area = 0; largest = rect 0 0 0 0 }

unfoldable pub add_fragment : Measure → Rect → Measure
add_fragment m fragment =
    let area = rect_area fragment in
    if area == 0 then m else record {
      visible_area = m.visible_area + area;
      largest_area = if ltb m.largest_area area then area else m.largest_area;
      largest = if ltb m.largest_area area then fragment else m.largest;
    }

-- The fragment on each monitor; all of it, if no monitor is known.
unfoldable pub add_clips : Rect → List Rect → Measure → Measure
unfolding rect_intersect add_fragment
add_clips fragment [] m = m
add_clips fragment (c ∷ cs) m = add_clips fragment cs (add_fragment m (rect_intersect fragment c))

unfoldable pub add_visible : Rect → List Rect → Rect → Measure → Measure
unfolding add_clips
add_visible content clips v m =
    let fragment = rect_intersect v content in
    if rect_area fragment == 0
    then m
    else elim clips [ [] ↦ add_fragment m fragment | c ∷ cs ↦ add_clips fragment (c ∷ cs) m ]

unfoldable pub measure : Rect → List Rect → List Rect → Measure → Measure
unfolding add_visible
measure content clips [] m = m
measure content clips (v ∷ vs) m = measure content clips vs (add_visible content clips v m)

unfoldable pub total_area : WindowPosition → ℕ
unfolding content_rect
total_area win =
    let content = content_rect win in (content.x2 - content.x1) * (content.y2 - content.y1)

-- The visible area, of which the code returns the share of the total area, and the largest fragment.
unfoldable pub compute_visible_fraction :
    WindowPosition → List ℕ → List WindowPosition → List Rect → Measure
unfolding total_area measure visible_region occluders
compute_visible_fraction win stack all clips =
    if total_area win == 0
    then no_measure
    else measure (content_rect win) clips
        (visible_region (occluders win stack all) (outer_rect win ∷ [])) no_measure

-- Without a monitor the fragment is added as it is.
if_false {ℓ} : {A : Type ℓ} (b : Bool) (x y : A) → b ≡ false → (if b then x else y) ≡ y
if_false true x y h = cc
if_false false x y h = refl

pub unclipped :
    (content v : Rect) (m : Measure)
    → (rect_area (rect_intersect v content) == 0) ≡ false
    → add_visible content [] v m ≡ add_fragment m (rect_intersect v content)
unfolding add_visible
unclipped content v m h =
    if_false (rect_area (rect_intersect v content) == 0) m
      (add_fragment m (rect_intersect v content)) h

-- ===== src/Workspace/Largest/Areas.antt =====
-- The areas that are added up.
use cofi.Prelude.{
  ℕ, ◌+◌, ◌≡◌, ap, ◌∙◌, List, [], ◌∷◌, ◌==◌, ==_iff, ltb, if◌then◌else◌, arith, Bool-cases, inl,
  inr,
}
use cofi.Workspace.Rects.{Rect, rect_intersect, rect_area}
use cofi.Workspace.Largest.{
  Measure, no_measure, add_fragment, add_clips, add_visible, measure, unclipped,
}

area-add_fragment :
    (m : Measure) (r : Rect) → (add_fragment m r).visible_area ≡ m.visible_area + rect_area r
unfolding add_fragment
area-add_fragment m r = at (rect_area r) r
  where
    at :
        (area : ℕ) (r : Rect)
        → (if area == 0 then m else record {
          visible_area = m.visible_area + area;
          largest_area = if ltb m.largest_area area then area else m.largest_area;
          largest = if ltb m.largest_area area then r else m.largest;
        }).visible_area
          ≡ m.visible_area + area
    at area r = ground arith

-- What a fragment has on the monitors.
clip_area : Rect → List Rect → ℕ
clip_area fragment [] = 0
clip_area fragment (c ∷ cs) = rect_area (rect_intersect fragment c) + clip_area fragment cs

area-add_clips :
    (fragment : Rect) (cs : List Rect) (m : Measure)
    → (add_clips fragment cs m).visible_area ≡ m.visible_area + clip_area fragment cs
unfolding add_clips clip_area
area-add_clips fragment [] m = omega arith
area-add_clips fragment (c ∷ cs) m = omega (
  arith,
  area-add_clips fragment cs (add_fragment m (rect_intersect fragment c)),
  area-add_fragment m (rect_intersect fragment c),
)

share : Rect → List Rect → Rect → ℕ
unfolding clip_area
share content [] v = rect_area (rect_intersect v content)
share content (c ∷ cs) v =
    let fragment = rect_intersect v content in
    if rect_area fragment == 0 then 0 else clip_area fragment (c ∷ cs)

area-add_visible :
    (content : Rect) (clips : List Rect) (v : Rect) (m : Measure)
    → (add_visible content clips v m).visible_area ≡ m.visible_area + share content clips v
unfolding add_visible share
area-add_visible content [] v m =
    let fragment = rect_intersect v content in
    elim (Bool-cases (rect_area fragment == 0)) [
      | inl none_there ↦ rw none_there (omega (arith, (==_iff (rect_area fragment) 0).0 none_there))
      | inr some_there ↦
          ap (λ n. n.visible_area) (unclipped content v m some_there) ∙ area-add_fragment m fragment
    ]
area-add_visible content (c ∷ cs) v m =
    let fragment = rect_intersect v content in
    elim (Bool-cases (rect_area fragment == 0)) [
      | inl none_there ↦ rw none_there (omega arith)
      | inr some_there ↦ rw some_there (area-add_clips fragment (c ∷ cs) m)
    ]

shares : Rect → List Rect → List Rect → ℕ
unfolding share
shares content clips [] = 0
shares content clips (v ∷ vs) = share content clips v + shares content clips vs

area-measure :
    (content : Rect) (clips vs : List Rect) (m : Measure)
    → (measure content clips vs m).visible_area ≡ m.visible_area + shares content clips vs
unfolding measure shares
area-measure content clips [] m = omega arith
area-measure content clips (v ∷ vs) m = omega (
  arith,
  area-measure content clips vs (add_visible content clips v m),
  area-add_visible content clips v m,
)

share_both :
    (content c c' : Rect) (cs : List Rect) (v : Rect)
    → share content (c ∷ c' ∷ cs) v ≡ share content (c ∷ []) v + share content (c' ∷ cs) v
unfolding share clip_area
share_both content c c' cs v = ground arith

shares_both :
    (content c c' : Rect) (cs vs : List Rect)
    → shares content (c ∷ c' ∷ cs) vs ≡ shares content (c ∷ []) vs + shares content (c' ∷ cs) vs
unfolding shares
shares_both content c c' cs [] = omega arith
shares_both content c c' cs (v ∷ vs) =
    omega (arith, share_both content c c' cs v, shares_both content c c' cs vs)

-- The visible area on several monitors is the sum of the visible areas on each of them: what two
-- monitors show is counted twice.
pub measure-add_clips :
    (content c c' : Rect) (cs visible : List Rect)
    → (measure content (c ∷ c' ∷ cs) visible no_measure).visible_area
      ≡ (measure content (c ∷ []) visible no_measure).visible_area
        + (measure content (c' ∷ cs) visible no_measure).visible_area
measure-add_clips content c c' cs visible = omega (
  arith,
  area-measure content (c ∷ c' ∷ cs) visible no_measure,
  area-measure content (c ∷ []) visible no_measure,
  area-measure content (c' ∷ cs) visible no_measure,
  shares_both content c c' cs visible,
)

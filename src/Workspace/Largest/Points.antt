-- ===== src/Workspace/Largest/Points.antt =====
-- The largest fragment is a part of what shows of the window.
use cofi.Prelude.{
  ℕ, ◌≤◌, ◌≡◌, refl, sym, subst, ◌∙◌, Bool, true, ◌&&◌, List, [], ◌∷◌, some, length, count_if,
  exists_in, ◌==◌, ltb, if◌then◌else◌, arith, Bool-cases, inl, inr,
}
use cofi.Workspace.Rects.{Rect, rect_intersect, rect_area, inside}
use cofi.Workspace.Rects.Difference.{one_if, inside-rect_intersect}
use cofi.Workspace.Visible.{
  max_occluders, WindowPosition, outer_rect, content_rect, get_stack_position, all_occluders,
  occluders, visible_region,
}
use cofi.Workspace.Visible.Windows.{shows, visible_region-shows-le}
use cofi.Workspace.Largest.{
  Measure, no_measure, add_fragment, add_clips, add_visible, measure, unclipped, total_area,
  compute_visible_fraction,
}

module _ (x y : ℕ) where
  -- A monitor has the point, or no monitor is known.
  abbrev pub on_monitor : List Rect → Bool
  on_monitor [] = true
  on_monitor (c ∷ cs) = exists_in (inside x y) (c ∷ cs)

  -- The largest fragment so far has no point that the test refuses.
  abbrev Within : Bool → Measure → Type 0
  Within ok m = inside x y m.largest ≡ true → ok ≡ true

  add_fragment-Within :
      (ok : Bool) (m : Measure) (r : Rect)
      → (inside x y r ≡ true → ok ≡ true)
      → Within ok m
      → Within ok (add_fragment m r)
  unfolding add_fragment
  add_fragment-Within ok m r h k = elim (Bool-cases (rect_area r == 0)) [
    | inl empty ↦ rw empty k
    | inr some_point ↦ elim (Bool-cases (ltb m.largest_area (rect_area r))) [
      | inl more ↦ rw (some_point, more) h
      | inr less ↦ rw (some_point, less) k
    ]
  ]

  and_true : (p q : Bool) → (p && q) ≡ true → (p ≡ true) × (q ≡ true)
  and_true p q h = ground (arith, h)

  add_clips-Within :
      (ok : Bool) (fragment : Rect) (cs : List Rect) (m : Measure)
      → (inside x y fragment ≡ true → exists_in (inside x y) cs ≡ true → ok ≡ true)
      → Within ok m
      → Within ok (add_clips fragment cs m)
  unfolding add_clips
  add_clips-Within ok fragment [] m h k = k
  add_clips-Within ok fragment (c ∷ cs) m h k =
      add_clips-Within ok fragment cs (add_fragment m (rect_intersect fragment c))
        (λ i e. h i (later e))
        (add_fragment-Within ok m (rect_intersect fragment c)
          (λ i.
            let (in_fragment, in_clip) =
              and_true (inside x y fragment) (inside x y c)
                (sym (inside-rect_intersect fragment c x y) ∙ i) in
            h in_fragment (rw in_clip refl))
          k)
    where
      later : exists_in (inside x y) cs ≡ true → exists_in (inside x y) (c ∷ cs) ≡ true
      later e = rw e (if_same (inside x y c))
        where
          if_same : (b : Bool) → (if b then true else true) ≡ true
          if_same b = ground arith

  add_visible-Within :
      (ok : Bool) (content : Rect) (clips : List Rect) (v : Rect) (m : Measure)
      → (inside x y v ≡ true → inside x y content ≡ true → on_monitor clips ≡ true → ok ≡ true)
      → Within ok m
      → Within ok (add_visible content clips v m)
  unfolding add_visible
  add_visible-Within ok content [] v m h k =
      elim (Bool-cases (rect_area (rect_intersect v content) == 0)) [
        | inl empty ↦ rw empty k
        | inr some_point ↦
            let fragment = rect_intersect v content in
            subst (Within ok) (sym (unclipped content v m some_point)) (
              add_fragment-Within ok m fragment
                (λ i.
                  let (in_v, in_content) =
                    and_true (inside x y v) (inside x y content)
                      (sym (inside-rect_intersect v content x y) ∙ i) in
                  h in_v in_content refl)
                k)
      ]
  add_visible-Within ok content (c ∷ cs) v m h k =
      elim (Bool-cases (rect_area (rect_intersect v content) == 0)) [
        | inl empty ↦ rw empty k
        | inr some_point ↦ rw some_point (
            add_clips-Within ok (rect_intersect v content) (c ∷ cs) m
              (λ i e.
                let (in_v, in_content) =
                  and_true (inside x y v) (inside x y content)
                    (sym (inside-rect_intersect v content x y) ∙ i) in
                h in_v in_content e)
              k)
      ]

  measure-Within :
      (ok : Bool) (content : Rect) (clips vs : List Rect) (m : Measure)
      → (exists_in (inside x y) vs ≡ true
          → inside x y content ≡ true
          → on_monitor clips ≡ true
          → ok ≡ true)
      → Within ok m
      → Within ok (measure content clips vs m)
  unfolding measure
  measure-Within ok content clips [] m h k = k
  measure-Within ok content clips (v ∷ vs) m h k =
      measure-Within ok content clips vs (add_visible content clips v m)
        (λ e. h (rw e (if_same (inside x y v))))
        (add_visible-Within ok content clips v m (λ i. h (rw i refl)) k)
    where
      if_same : (b : Bool) → (if b then true else true) ≡ true
      if_same b = ground arith

  some_counted : (rs : List Rect) → exists_in (inside x y) rs ≡ true → 1 ≤ count_if (inside x y) rs
  some_counted [] e = absurd (ground (arith, e))
  some_counted (r ∷ rs) e = elim (Bool-cases (inside x y r)) [
    | inl there ↦ rw there (omega arith)
    | inr other ↦ rw other (omega (arith, some_counted rs (rw other at e)))
  ]

  shown_if : (b : Bool) → 1 ≤ one_if b → b ≡ true
  shown_if b h = ground (arith, h)

  both : (p q r : Bool) → p ≡ true → q ≡ true → r ≡ true → (p && (q && r)) ≡ true
  both p q r h k l = ground (arith, h, k, l)

  -- The largest fragment of a window in the stack with at most 32 occluders: each of its points is in the
  -- window without its frame, on a monitor if one is known, and shows of the window.
  pub largest-shows :
      (win : WindowPosition) (position : ℕ) (stack : List ℕ) (all : List WindowPosition)
      (clips : List Rect)
      → get_stack_position win.id stack ≡ some position
      → length (all_occluders win position stack all) ≤ max_occluders
      → inside x y (compute_visible_fraction win stack all clips).largest ≡ true
      → (inside x y (content_rect win) && (on_monitor clips && shows win position stack all x y))
        ≡ true
  unfolding compute_visible_fraction
  largest-shows win position stack all clips e b = elim (Bool-cases (total_area win == 0)) [
    | inl empty ↦ rw empty (λ i. absurd (ground (arith, i)))
    | inr some_area ↦
        let ok =
          inside x y (content_rect win) && (on_monitor clips && shows win position stack all x y) in
        let visible = visible_region (occluders win stack all) (outer_rect win ∷ []) in
        rw some_area (
          measure-Within ok (content_rect win) clips visible no_measure
            (λ there in_content on.
              both (inside x y (content_rect win)) (on_monitor clips)
                (shows win position stack all x y) in_content on
                (shown_if (shows win position stack all x y) (
                  omega (
                    arith,
                    some_counted visible there,
                    visible_region-shows-le win position stack all x y e b,
                  ))))
            (λ i. absurd (ground (arith, i))))
  ]

-- ===== src/Geometry/Planner/Settled.antt =====
-- A plan does what the target asks for, and nothing is left to do afterwards.
use cofi.Prelude.{
  ℤ, pos, negsuc, ◌≡◌, refl, sym, ap, ◌∙◌, Bool, true, false, not, ◌&&◌, ◌||◌, eq_ℤ, eq_ℤ_iff,
  eq_ℤ_refl, if◌then◌else◌, arith, Bool-cases, inl, inr,
}
use cofi.Geometry.Planner.{
  GeometryState, GeometryRestorePlan, is_desktop, geom_differs, geometry_restore_plan, plan_any,
}

-- The steps of a plan, each with the effect that its name says: the window and the desktop in view.
abbrev pub applied : GeometryRestorePlan → GeometryState → GeometryState → ℤ → GeometryState × ℤ
applied plan target current active = (
  record {
    x = if plan.do_move then target.x else current.x;
    y = if plan.do_move then target.y else current.y;
    width = if plan.do_move then target.width else current.width;
    height = if plan.do_move then target.height else current.height;
    desktop = if plan.do_desktop then target.desktop else current.desktop;
    maximized_vert = plan.set_max_vert || (current.maximized_vert && not plan.unset_max_vert);
    maximized_horz = plan.set_max_horz || (current.maximized_horz && not plan.unset_max_horz);
    fullscreen = plan.set_fullscreen || (current.fullscreen && not plan.unset_fullscreen);
  },
  if plan.do_switch_active_desktop then target.desktop else active,
)

-- The target is reached: its flags, its desktop if it has one, and its place unless the window manager
-- has the place of a window that fills the screen.
abbrev pub reached : GeometryState → GeometryState → ℤ → GeometryState × ℤ
reached current target active =
    let placed = not target.fullscreen && not (target.maximized_vert && target.maximized_horz) in
    (
      record {
        x = if placed then target.x else current.x;
        y = if placed then target.y else current.y;
        width = if placed then target.width else current.width;
        height = if placed then target.height else current.height;
        desktop = if is_desktop target.desktop then target.desktop else current.desktop;
        maximized_vert = target.maximized_vert;
        maximized_horz = target.maximized_horz;
        fullscreen = target.fullscreen;
      },
      if is_desktop target.desktop then target.desktop else active,
    )

flag_reached : (c t : Bool) → ((not c && t) || (c && not (c && not t))) ≡ t
flag_reached c t = ground arith

if_same : (b : Bool) (n : ℤ) → (if b then n else n) ≡ n
if_same true n = refl
if_same false n = refl

-- One of four coordinates, moved if any of them differs.
coordinate_reached :
    (t c : ℤ) (d p q : Bool)
    → (d ≡ false → eq_ℤ t c ≡ true)
    → (if d && p && q then t else c) ≡ (if p && q then t else c)
coordinate_reached t c true p q h = refl
coordinate_reached t c false p q h = rw ((eq_ℤ_iff t c).0 (h refl)) (sym (if_same (p && q) c))

desktop_reached :
    (t c : ℤ) → (if is_desktop t && not (eq_ℤ t c) then t else c) ≡ (if is_desktop t then t else c)
desktop_reached t c = elim (Bool-cases (eq_ℤ t c)) [
  | inl same ↦
      rw ((eq_ℤ_iff t c).0 same)
        (if_same (is_desktop c && not (eq_ℤ c c)) c ∙ sym (if_same (is_desktop c) c))
  | inr other ↦ rw other (ap (λ b. if b then t else c) (and_true (is_desktop t)))
]
  where
    and_true : (b : Bool) → (b && true) ≡ b
    and_true b = ground arith

none_differs :
    (p q r s : Bool)
    → (not p || not q || not r || not s) ≡ false
    → (p ≡ true) × (q ≡ true) × (r ≡ true) × (s ≡ true)
none_differs p q r s h = ground (arith, h)

-- Following a plan reaches the target: the window has its flags, its desktop unless that is unknown, and
-- its place unless the target is full screen or maximized in both directions; and the desktop in
-- view is that of the target, unless it is unknown.
pub geometry_restore_plan-reached :
    (current target : GeometryState) (active : ℤ)
    → applied (geometry_restore_plan current target active) target current active
      ≡ reached current target active
unfolding geometry_restore_plan
geometry_restore_plan-reached current target active =
    let d = geom_differs current target in
    let p = not target.fullscreen in
    let q = not (target.maximized_vert && target.maximized_horz) in
    let same : d ≡ false
        → (eq_ℤ target.x current.x ≡ true)
          × (eq_ℤ target.y current.y ≡ true)
          × (eq_ℤ target.width current.width ≡ true)
          × (eq_ℤ target.height current.height ≡ true) =
      λ h.
        none_differs (eq_ℤ target.x current.x) (eq_ℤ target.y current.y)
          (eq_ℤ target.width current.width) (eq_ℤ target.height current.height) h in
    rw
      (
        coordinate_reached target.x current.x d p q (λ h. (same h).0),
        coordinate_reached target.y current.y d p q (λ h. (same h).1),
        coordinate_reached target.width current.width d p q (λ h. (same h).2),
        coordinate_reached target.height current.height d p q (λ h. (same h).3),
        desktop_reached target.desktop current.desktop,
        desktop_reached target.desktop active,
        flag_reached current.maximized_vert target.maximized_vert,
        flag_reached current.maximized_horz target.maximized_horz,
        flag_reached current.fullscreen target.fullscreen,
      )
      refl

flag_kept : (t : Bool) → ((t && not t) ≡ false) × ((not t && t) ≡ false)
flag_kept t = ground arith

desktop_kept : (t c : ℤ) → (is_desktop t && not (eq_ℤ t (if is_desktop t then t else c))) ≡ false
desktop_kept (pos n) c = rw (eq_ℤ_refl (pos n)) refl
desktop_kept (negsuc n) c = refl

place_kept :
    (x y w h x' y' w' h' : ℤ) (p q : Bool)
    → ((not (eq_ℤ x (if p && q then x else x'))
          || not (eq_ℤ y (if p && q then y else y'))
          || not (eq_ℤ w (if p && q then w else w'))
          || not (eq_ℤ h (if p && q then h else h')))
        && p
        && q)
      ≡ false
place_kept x y w h x' y' w' h' true true =
    rw (eq_ℤ_refl x, eq_ℤ_refl y, eq_ℤ_refl w, eq_ℤ_refl h) refl
place_kept x y w h x' y' w' h' true false = ground arith
place_kept x y w h x' y' w' h' false q = ground arith

-- Once a plan has been followed, the next plan for the same target has nothing to do.
pub geometry_restore_plan-settled :
    (current target : GeometryState) (active : ℤ)
    → plan_any (
        geometry_restore_plan
          (applied (geometry_restore_plan current target active) target current active).0
          target
          (applied (geometry_restore_plan current target active) target current active).1)
      ≡ false
unfolding geometry_restore_plan
geometry_restore_plan-settled current target active =
    ap (λ s. plan_any (geometry_restore_plan s.0 target s.1))
      (geometry_restore_plan-reached current target active)
    ∙ nothing_left
  where
    nothing_left :
        plan_any (
          geometry_restore_plan
            (reached current target active).0
            target
            (reached current target active).1)
        ≡ false
    nothing_left =
        rw
          (
            (flag_kept target.fullscreen).0,
            (flag_kept target.fullscreen).1,
            (flag_kept target.maximized_vert).0,
            (flag_kept target.maximized_vert).1,
            (flag_kept target.maximized_horz).0,
            (flag_kept target.maximized_horz).1,
            desktop_kept target.desktop current.desktop,
            desktop_kept target.desktop active,
            place_kept target.x target.y target.width target.height current.x current.y
                current.width current.height (not target.fullscreen)
                (not (target.maximized_vert && target.maximized_horz)),
          )
          refl

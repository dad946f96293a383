-- ===== src/Geometry/Planner.antt =====
-- What has to be done to bring a window back to a saved layout, src/geom/geometry_planner.c.
pub mod Settled
use cofi.Prelude.{ℕ, ℤ, pos, negsuc, Bool, true, false, not, ◌&&◌, ◌||◌, eq_ℤ, if◌then◌else◌}

-- src/geom/geometry_planner.h; desktop -1 is unknown.
pub record GeometryState : Type 0 where
  pub x : ℤ
  pub y : ℤ
  pub width : ℤ
  pub height : ℤ
  pub desktop : ℤ
  pub maximized_vert : Bool
  pub maximized_horz : Bool
  pub fullscreen : Bool

-- The field `any` is the disjunction of the others.
pub record GeometryRestorePlan : Type 0 where
  pub unset_fullscreen : Bool
  pub unset_max_vert : Bool
  pub unset_max_horz : Bool
  pub do_move : Bool
  pub do_desktop : Bool
  pub do_switch_active_desktop : Bool
  pub set_fullscreen : Bool
  pub set_max_vert : Bool
  pub set_max_horz : Bool

-- `0 <= n`
abbrev pub is_desktop : ℤ → Bool
is_desktop (pos n) = true
is_desktop (negsuc n) = false

abbrev pub geom_differs : GeometryState → GeometryState → Bool
geom_differs current target =
    not (eq_ℤ target.x current.x)
    || not (eq_ℤ target.y current.y)
    || not (eq_ℤ target.width current.width)
    || not (eq_ℤ target.height current.height)

unfoldable pub geometry_restore_plan : GeometryState → GeometryState → ℤ → GeometryRestorePlan
geometry_restore_plan current target current_active_desktop =
    let fully_maximized = target.maximized_vert && target.maximized_horz in
    record {
      unset_fullscreen = current.fullscreen && not target.fullscreen;
      unset_max_vert = current.maximized_vert && not target.maximized_vert;
      unset_max_horz = current.maximized_horz && not target.maximized_horz;
      do_move = geom_differs current target && not target.fullscreen && not fully_maximized;
      do_desktop = is_desktop target.desktop && not (eq_ℤ target.desktop current.desktop);
      do_switch_active_desktop =
          is_desktop target.desktop && not (eq_ℤ target.desktop current_active_desktop);
      set_fullscreen = not current.fullscreen && target.fullscreen;
      set_max_vert = not current.maximized_vert && target.maximized_vert;
      set_max_horz = not current.maximized_horz && target.maximized_horz;
    }

abbrev pub plan_any : GeometryRestorePlan → Bool
plan_any plan =
    plan.unset_fullscreen || plan.unset_max_vert || plan.unset_max_horz || plan.do_move
    || plan.do_desktop || plan.do_switch_active_desktop || plan.set_fullscreen || plan.set_max_vert
    || plan.set_max_horz

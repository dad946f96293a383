-- ===== src/Geometry/Examples.antt =====
-- A window that is maximized and goes back to its place, and calls on the store of layouts.
use cofi.Prelude.{ℕ, pos, ◌≡◌, true, false, List, [], ◌∷◌, none, arith}
use cofi.Geometry.Layouts.{LayoutRecord, layout_store_get}
use cofi.Geometry.Layouts.Map.{Op, save, forget, map_run, store_run}
use cofi.Geometry.Layouts.Runs.{layout_store_get-map_run}
use cofi.Geometry.Planner.{GeometryState, geometry_restore_plan, plan_any}
use cofi.Geometry.Planner.Settled.{
  applied, reached, geometry_restore_plan-reached, geometry_restore_plan-settled,
}

abbrev layout : ℕ → ℕ → LayoutRecord
layout match_id width = record {
  match_id = pos match_id;
  x = pos 10;
  y = pos 20;
  width = pos width;
  height = pos 300;
  desktop = pos 0;
  maximized_vert = false;
  maximized_horz = false;
  fullscreen = false;
  restore_desktop = true;
  disabled = false;
}

abbrev calls : List Op
calls = save (layout 1 400) ∷ save (layout 2 0) ∷ save (layout 1 500) ∷ forget (pos 2) ∷ []

layout_store_get-map_run_example :
    layout_store_get (store_run calls []) (pos 1) ≡ map_run calls (λ n. none) (pos 1)
layout_store_get-map_run_example = layout_store_get-map_run calls (pos 1) (omega arith)

abbrev maximized : GeometryState
maximized = record {
  x = pos 0;
  y = pos 0;
  width = pos 1920;
  height = pos 1080;
  desktop = pos 1;
  maximized_vert = true;
  maximized_horz = true;
  fullscreen = false;
}

abbrev small : GeometryState
small = record {
  x = pos 10;
  y = pos 20;
  width = pos 400;
  height = pos 300;
  desktop = pos 0;
  maximized_vert = false;
  maximized_horz = false;
  fullscreen = false;
}

geometry_restore_plan-reached_example :
    applied (geometry_restore_plan maximized small (pos 1)) small maximized (pos 1)
    ≡ reached maximized small (pos 1)
geometry_restore_plan-reached_example = geometry_restore_plan-reached maximized small (pos 1)

geometry_restore_plan-settled_example :
    plan_any (
      geometry_restore_plan
        (applied (geometry_restore_plan maximized small (pos 1)) small maximized (pos 1)).0
        small
        (applied (geometry_restore_plan maximized small (pos 1)) small maximized (pos 1)).1)
    ≡ false
geometry_restore_plan-settled_example = geometry_restore_plan-settled maximized small (pos 1)

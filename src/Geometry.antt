-- ===== src/Geometry.antt =====
-- src/geom: the saved layouts of windows, and what has to be done to bring one back.
pub mod Layouts
pub mod Planner
mod Examples

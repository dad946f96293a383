-- ===== src/Workspace.antt =====
-- The slots of the windows that show on a workspace, src/harpoon/workspace_slots.c.
pub mod Rects
pub mod Visible
pub mod Largest
pub mod Slots
mod Examples

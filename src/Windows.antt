-- ===== src/Windows.antt =====
-- src/x11/window_info.h: what is known of a window of the X server.
use cofi.Prelude.{ℕ, ℤ, Bytes}

-- `Window` is a number; `type` is "Normal" or "Special"; desktop -1 is every desktop.
pub record WindowInfo : Type 0 where
  pub id : ℕ
  pub title : Bytes
  pub class_name : Bytes
  pub instance_name : Bytes
  pub type : Bytes
  pub desktop : ℤ
  pub pid : ℤ

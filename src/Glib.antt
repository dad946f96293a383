-- ===== src/Glib.antt =====
-- What the code relies on of GLib, which is not part of the repository: two functions with their
-- documented behaviour.
use cofi.Prelude.{
  ℕ, ◌-◌, ◌<◌, ◌≡◌, refl, Bool, true, false, ◌||◌, Bytes, length, take_all, copy_to, ◌==◌, arith,
}

pub record Glib : Type 0 where
  -- `g_strlcpy` into a buffer of a given size
  pub strlcpy : ℕ → Bytes → Bytes
  -- a text that fits is copied as it is
  pub strlcpy_fits : (size : ℕ) (s : Bytes) → length s < size → strlcpy size s ≡ s
  -- `g_ascii_isspace`
  pub is_space : ℕ → Bool
  pub is_space_blank : is_space 32 ≡ true
  pub is_space_end : is_space 0 ≡ false
  pub is_space_at : is_space 64 ≡ false

-- The interface can be met.
abbrev pub plain_glib : Glib
plain_glib = record {
  strlcpy = copy_to;
  strlcpy_fits = λ size s h. take_all (size - 1) s (omega arith);
  is_space = λ c. c == 32 || c == 9;
  is_space_blank = refl;
  is_space_end = refl;
  is_space_at = refl;
}

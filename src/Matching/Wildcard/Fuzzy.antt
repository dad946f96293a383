-- ===== src/Matching/Wildcard/Fuzzy.antt =====
-- src/matching/window_matcher.c: the fuzzy comparison of two windows does not depend on their order.
use cofi.Prelude.{◌≡◌, true, Bytes, bytes_eq_comm, bytes_eq_refl, arith, take}
use cofi.Windows.{WindowInfo}
use cofi.Matching.Wildcard.{
  get_title_base_length, same_base, titles_match_fuzzy, windows_match_fuzzy,
}

same_base_comm : (s t : Bytes) → same_base s t ≡ same_base t s
unfolding same_base
same_base_comm s t =
    ground
      (arith, bytes_eq_comm (take (get_title_base_length s) s) (take (get_title_base_length s) t))

pub titles_match_fuzzy_comm : (s t : Bytes) → titles_match_fuzzy s t ≡ titles_match_fuzzy t s
unfolding titles_match_fuzzy
titles_match_fuzzy_comm s t = ground (arith, bytes_eq_comm s t, same_base_comm s t)

titles_match_fuzzy_refl : (s : Bytes) → titles_match_fuzzy s s ≡ true
unfolding titles_match_fuzzy
titles_match_fuzzy_refl s = rw (bytes_eq_refl s)

-- `windows_match_fuzzy` relates every window to itself, and two windows in either order alike.
pub windows_match_fuzzy_laws :
    (w v : WindowInfo)
    → (windows_match_fuzzy w w ≡ true) × (windows_match_fuzzy w v ≡ windows_match_fuzzy v w)
unfolding windows_match_fuzzy
windows_match_fuzzy_laws w v = (
  ground (
    arith,
    bytes_eq_refl w.class_name,
    bytes_eq_refl w.instance_name,
    bytes_eq_refl w.type,
    titles_match_fuzzy_refl w.title,
  ),
  ground (
    arith,
    bytes_eq_comm w.class_name v.class_name,
    bytes_eq_comm w.instance_name v.instance_name,
    bytes_eq_comm w.type v.type,
    titles_match_fuzzy_comm w.title v.title,
  ),
)

-- ===== src/History.antt =====
-- src/core/history/history.c: the windows in the order in which they were active. `history` is the
-- live part of the array. What the X server says is an argument: the active window, the windows and
-- the current desktop.
pub mod Order
mod Examples
use cofi.Prelude.{
  ℕ, zero, suc, ℤ, pos, negsuc, ◌+◌, ◌-◌, Bool, true, false, not, ◌&&◌, ◌||◌, List, [], ◌∷◌, ◌++◌,
  Option, none, some, Bytes, bytes_eq, codes, eq_ℤ, length, take, get_elem?, remove_at, find_index,
  find_first, exists_in, keep_if, tolower, map, leb, ltb, ◌==◌, if◌then◌else◌,
}
use cofi.Windows.{WindowInfo}
use cofi.Matching.Registry.{max_windows}

-- `active_window_id` is an `int` of the code, so that it holds the low bits of a window's number;
-- such numbers have 29 bits.
pub record History : Type 0 where
  pub history : List WindowInfo
  pub active_window_id : ℕ

abbrev pub has_id : ℕ → WindowInfo → Bool
has_id id w = w.id == id

-- The windows of the history that still exist, as they are now.
unfoldable pub keep_existing : List WindowInfo → List WindowInfo → List WindowInfo
keep_existing windows [] = []
keep_existing windows (h ∷ hs) =
    let rest = keep_existing windows hs in
    (elim (find_first (has_id h.id) windows) [ some w ↦ w ∷ rest | none ↦ rest ])

-- The windows that are not in the history go behind the others, while there is room.
unfoldable pub add_new : List WindowInfo → List WindowInfo → List WindowInfo
add_new kept [] = kept
add_new kept (w ∷ ws) =
    add_new
      (if not (exists_in (has_id w.id) kept) && ltb (length kept) max_windows
        then kept ++ (w ∷ [])
        else kept)
      ws

-- `strcasecmp(class_name, "cofi") == 0`
unfoldable pub is_own_window : WindowInfo → Bool
is_own_window w = bytes_eq (map tolower w.class_name) (codes "cofi")

-- The window at a place moves to the front, and those before it move up by one.
unfoldable pub move_to_front : List WindowInfo → ℕ → List WindowInfo
move_to_front ws i = elim (get_elem? ws i) [ none ↦ ws | some w ↦ w ∷ remove_at ws i ]

-- The search for the active window starts behind the front.
unfoldable pub front_active : List WindowInfo → ℕ → List WindowInfo
unfolding move_to_front
front_active [] active = []
front_active (first ∷ rest) active = elim (find_index (has_id active) rest) [
  | none ↦ first ∷ rest
  | some i ↦ elim (get_elem? rest i) [
    | none ↦ first ∷ rest
    | some w ↦ if is_own_window w then first ∷ rest else move_to_front (first ∷ rest) (suc i)
  ]
]

-- The history for the windows and the active window (0 if there is none) of the X server.
pub update_history : History → List WindowInfo → ℕ → History
update_history h windows active =
    let listed = add_new (keep_existing windows h.history) windows in
    if not (active == 0) && not (active == h.active_window_id)
    then record { history = front_active listed active; active_window_id = active }
    else record { history = listed; active_window_id = h.active_window_id }

-- The five arrays in which the windows behind the first two are put, each with room for 256.
pub record Classes : Type 0 where
  pub current_normal : List WindowInfo
  pub other_normal : List WindowInfo
  pub current_special : List WindowInfo
  pub other_special : List WindowInfo
  pub sticky_windows : List WindowInfo

abbrev pub no_windows : Classes
no_windows = record {
  current_normal = [];
  other_normal = [];
  current_special = [];
  other_special = [];
  sticky_windows = [];
}

abbrev pub put_within : List WindowInfo → WindowInfo → List WindowInfo
put_within ws w = if ltb (length ws) max_windows then ws ++ (w ∷ []) else ws

-- One round of the partition.
unfoldable pub put_window : ℤ → WindowInfo → Classes → Classes
put_window current_desktop win cs =
    if eq_ℤ win.desktop (negsuc 0)
    then record cs { sticky_windows = put_within cs.sticky_windows win }
    else if bytes_eq win.type (codes "Normal")
    then (if eq_ℤ win.desktop current_desktop
        then record cs { current_normal = put_within cs.current_normal win }
        else record cs { other_normal = put_within cs.other_normal win })
    else if eq_ℤ win.desktop current_desktop
    then record cs { current_special = put_within cs.current_special win }
    else record cs { other_special = put_within cs.other_special win }

unfoldable pub partition_from : ℤ → List WindowInfo → Classes → Classes
partition_from current_desktop [] cs = cs
partition_from current_desktop (win ∷ ws) cs =
    partition_from current_desktop ws (put_window current_desktop win cs)

-- The loop that puts one of the arrays behind the history, while there is room.
unfoldable pub put_all : List WindowInfo → List WindowInfo → List WindowInfo
put_all history [] = history
put_all history (w ∷ ws) = elim (ltb (length history) max_windows) [
  | true ↦ put_all (history ++ (w ∷ [])) ws
  | false ↦ history
]

-- The five arrays behind one another.
unfoldable pub rebuild : List WindowInfo → Classes → List WindowInfo
unfolding put_all
rebuild history cs =
    put_all
      (put_all
        (put_all (put_all (put_all history cs.current_normal) cs.other_normal) cs.current_special)
        cs.other_special)
      cs.sticky_windows

pub partition_and_reorder : ℤ → List WindowInfo → List WindowInfo
unfolding partition_from rebuild
partition_and_reorder current_desktop (first ∷ (second ∷ (third ∷ rest))) =
    rebuild (first ∷ second ∷ []) (partition_from current_desktop (third ∷ rest) no_windows)
partition_and_reorder current_desktop ws = ws

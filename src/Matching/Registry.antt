-- ===== src/Matching/Registry.antt =====
-- src/matching/match_entry.c: the registry of match entries. The array with its count is the list of
-- the live entries; an index or identifier below 0 that the code returns for failure is `none`.
pub mod Invariant
pub mod Counter
pub mod Deletion
pub mod Creation
pub mod Rebind
pub mod Runs
pub mod Lookup
pub mod Collected
use cofi.Prelude.{
  ℕ, zero, suc, ℤ, pos, negsuc, ◌+◌, ◌-◌, Bool, true, false, not, ◌&&◌, ◌||◌, List, [], ◌∷◌, ◌++◌,
  Option, none, some, Bytes, bytes_eq, is_empty, copy_to, eq_ℤ, is_positive, suc_ℤ, length,
  get_elem?, remove_at, find_index, find_first, exists_in, map, take, leb, ltb, ◌==◌, if◌then◌else◌,
}
use cofi.Windows.{WindowInfo}
use cofi.Matching.Wildcard.{wildcard_match}

abbrev pub max_windows : ℕ
max_windows = 256

abbrev pub max_title_len : ℕ
max_title_len = 512

abbrev pub max_class_len : ℕ
max_class_len = 128

-- `bound_x11_id` is 0 for an entry that no live window is bound to.
pub record MatchEntry : Type 0 where
  pub match_id : ℤ
  pub bound_x11_id : ℕ
  pub class_name : Bytes
  pub instance_name : Bytes
  pub type : Bytes
  pub original_title : Bytes
  pub assigned : Bool

pub record MatchEntryManager : Type 0 where
  pub entries : List MatchEntry
  pub next_match_id : ℤ

pub match_entry_manager_init : MatchEntryManager
match_entry_manager_init = record { entries = []; next_match_id = pos 1 }

-- A '*' of a title becomes a '.', so that a captured title is no wider a pattern.
unfoldable pub escape_char : ℕ → ℕ
escape_char c = if c == 42 then 46 else c

unfoldable pub escape_title_wildcards : ℕ → Bytes → Bytes
unfolding escape_char
escape_title_wildcards dst_size src = map escape_char (take (dst_size - 1) src)

-- The counter is an `int` of 32 bits.
abbrev pub int_max : ℕ
int_max = 2147483647

-- Signed overflow is undefined in C; here the counter goes from the largest `int` to the least one.
unfoldable pub suc_int : ℤ → ℤ
suc_int n = if eq_ℤ n (pos int_max) then negsuc int_max else suc_ℤ n

-- The number given out, and the next one. A counter that is not positive starts again at 1.
unfoldable pub allocate_match_id : ℤ → ℤ × ℤ
unfolding suc_int
allocate_match_id next =
    let fresh = if is_positive next then next else pos 1 in (fresh, suc_int fresh)

-- An anchor constrains only where it is set.
unfoldable pub anchor_allows : Bytes → Bytes → Bool
anchor_allows anchor value =
    if not (is_empty anchor) && not (bytes_eq anchor value) then false else true

unfoldable pub match_entry_matches_window : MatchEntry → WindowInfo → Bool
unfolding anchor_allows
match_entry_matches_window e w =
    if not (wildcard_match e.original_title w.title)
    then false
    else if not (anchor_allows e.class_name w.class_name)
    then false
    else if not (anchor_allows e.instance_name w.instance_name)
    then false
    else anchor_allows e.type w.type

unfoldable pub find_live_window_by_id : List WindowInfo → ℕ → Option WindowInfo
find_live_window_by_id windows id = if id == 0 then none else find_first (λ w. w.id == id) windows

pub match_entry_find_index_by_window : MatchEntryManager → ℕ → Option ℕ
match_entry_find_index_by_window m id =
    if id == 0 then none else find_index (λ e. e.bound_x11_id == id) m.entries

pub match_entry_is_bound_window : MatchEntryManager → ℕ → Bool
match_entry_is_bound_window m id = elim (match_entry_find_index_by_window m id) [
  | none ↦ false
  | some i ↦ true
]

unfoldable pub match_entry_find_index_by_match_id : MatchEntryManager → ℤ → Option ℕ
match_entry_find_index_by_match_id m match_id =
    if is_positive match_id then find_index (λ e. eq_ℤ e.match_id match_id) m.entries else none

pub match_entry_get_by_index : MatchEntryManager → ℤ → Option MatchEntry
match_entry_get_by_index m (pos i) = get_elem? m.entries i
match_entry_get_by_index m (negsuc i) = none

-- The binding of one entry is checked against the live windows: the entry afterwards, and whether
-- the code notes a change.
unfoldable pub rebind : List WindowInfo → MatchEntry → Bool → MatchEntry × Bool
rebind windows e changed = elim (find_first (λ w. match_entry_matches_window e w) windows) [
  | some w ↦ (record e { bound_x11_id = w.id; assigned = true }, true)
  | none ↦ (record e { bound_x11_id = 0; assigned = false }, changed)
]

unfoldable pub reassign_entry : List WindowInfo → MatchEntry → MatchEntry × Bool
reassign_entry windows e =
    if e.bound_x11_id == 0
    then rebind windows e false
    else (elim (find_live_window_by_id windows e.bound_x11_id) [
      | some bound ↦ (record e { assigned = true }, false)
      | none ↦ rebind windows e true
    ])

unfoldable pub reassign_entries : List WindowInfo → List MatchEntry → List MatchEntry × Bool
reassign_entries windows [] = ([], false)
reassign_entries windows (e ∷ es) =
    let (e', changed) = reassign_entry windows e in
    let (es', rest_changed) = reassign_entries windows es in (e' ∷ es', changed || rest_changed)

unfoldable pub match_entry_reassign_live_windows :
    MatchEntryManager → List WindowInfo → MatchEntryManager × Bool
match_entry_reassign_live_windows m windows =
    let (es, changed) = reassign_entries windows m.entries in (record m { entries = es }, changed)

-- An index out of range changes nothing.
pub match_entry_delete : MatchEntryManager → ℤ → MatchEntryManager
match_entry_delete m (pos i) =
    if leb (length m.entries) i then m else record m { entries = remove_at m.entries i }
match_entry_delete m (negsuc i) = m

pub match_entry_delete_by_match_id : MatchEntryManager → ℤ → MatchEntryManager
match_entry_delete_by_match_id m match_id = elim (match_entry_find_index_by_match_id m match_id) [
  | none ↦ m
  | some i ↦ match_entry_delete m (pos i)
]

unfoldable pub match_id_is_referenced : List ℤ → ℤ → Bool
match_id_is_referenced referenced match_id =
    if is_positive match_id then exists_in (λ r. eq_ℤ r match_id) referenced else false

-- The loop of `match_entry_gc` from index `i` on: it steps over a referenced entry and deletes any
-- other, until the index is past the last. Each round takes one of `rounds`.
unfoldable pub gc_from : ℕ → MatchEntryManager → List ℤ → ℕ → ℕ → MatchEntryManager × ℕ
gc_from zero m referenced i removed = (m, removed)
gc_from (suc rounds) m referenced i removed = elim (get_elem? m.entries i) [
  | none ↦ (m, removed)
  | some e ↦ elim (match_id_is_referenced referenced e.match_id) [
    | true ↦ gc_from rounds m referenced (i + 1) removed
    | false ↦ gc_from rounds (match_entry_delete m (pos i)) referenced i (removed + 1)
  ]
]

-- Enough rounds for every entry.
pub match_entry_gc : MatchEntryManager → List ℤ → MatchEntryManager × ℕ
match_entry_gc m referenced = gc_from (length m.entries) m referenced 0 0

-- The entry that is captured from a window, under a number.
unfoldable pub captured_entry : ℤ → WindowInfo → MatchEntry
unfolding escape_title_wildcards
captured_entry match_id w = record {
  match_id = match_id;
  bound_x11_id = w.id;
  class_name = copy_to max_class_len w.class_name;
  instance_name = copy_to max_class_len w.instance_name;
  type = copy_to 16 w.type;
  original_title = escape_title_wildcards max_title_len w.title;
  assigned = true;
}

-- The manager afterwards and the number given; `none` is the -1 of a full registry.
pub matching_create_entry : MatchEntryManager → WindowInfo → MatchEntryManager × Option ℤ
matching_create_entry m w =
    if leb max_windows (length m.entries)
    then (m, none)
    else (let (fresh, next) = allocate_match_id m.next_match_id in
        (
          record { entries = m.entries ++ (captured_entry fresh w ∷ []); next_match_id = next },
          some fresh,
        ))

unfoldable pub pattern_entry : ℤ → Bytes → MatchEntry
pattern_entry match_id pattern = record {
  match_id = match_id;
  bound_x11_id = 0;
  class_name = [];
  instance_name = [];
  type = [];
  original_title = copy_to max_title_len pattern;
  assigned = false;
}

pub matching_create_pattern_entry : MatchEntryManager → Bytes → MatchEntryManager × Option ℤ
matching_create_pattern_entry m pattern =
    if is_empty pattern || leb max_windows (length m.entries)
    then (m, none)
    else (let (fresh, next) = allocate_match_id m.next_match_id in
        (
          record {
            entries = m.entries ++ (pattern_entry fresh pattern ∷ []);
            next_match_id = next;
          },
          some fresh,
        ))

-- ===== src/Slots.antt =====
-- src/core/slot_store/slot_store.c: the store of slots, which keeps a text for a key and a tab. The
-- array with its count is the list of the entries; `capacity` is the size of the allocation.
pub mod Keys
pub mod Laws
pub mod Clearing
pub mod Shadowing
mod Examples
use cofi.Prelude.{
  ℕ, zero, suc, ℤ, pos, negsuc, ◌+◌, ◌-◌, ◌*◌, Bool, true, false, not, ◌&&◌, ◌||◌, List, [], ◌∷◌,
  ◌++◌, Option, none, some, Bytes, bytes_eq, is_empty, length, get_elem?, set, remove_at,
  find_index, find_first, leb, ltb, ◌==◌, if◌then◌else◌,
}
use cofi.Glib.{Glib}

abbrev pub max_harpoon_slots : ℕ
max_harpoon_slots = 36

pub record SlotEntry : Type 0 where
  pub slot_key : ℕ
  pub tab_id : Bytes
  pub payload : Bytes
  pub assigned : Bool

pub record SlotStore : Type 0 where
  pub entries : List SlotEntry
  pub capacity : ℕ

pub slot_store_init : SlotStore
slot_store_init = record { entries = []; capacity = 0 }

-- The slot of '0' to '9' and of a letter, which may be of either case.
pub slot_index_from_key : ℕ → Option ℕ
slot_index_from_key key =
    if leb 48 key && leb key 57
    then some (key - 48)
    else if leb 97 key && leb key 122
    then some (10 + (key - 97))
    else if leb 65 key && leb key 90
    then some (10 + (key - 65))
    else none

-- The key of a slot, and 0 for no slot.
pub slot_key_from_index : ℤ → ℕ
slot_key_from_index (negsuc i) = 0
slot_key_from_index (pos i) =
    if leb i 9 then 48 + i else if ltb i max_harpoon_slots then 97 + (i - 10) else 0

abbrev pub is_entry_of : Bytes → ℕ → SlotEntry → Bool
is_entry_of tab key e = e.assigned && ((e.slot_key == key) && bytes_eq e.tab_id tab)

unfoldable pub find_entry : SlotStore → Bytes → ℕ → Option ℕ
find_entry store tab key = find_index (is_entry_of tab key) store.entries

-- The store with an empty entry behind the others, and its index.
unfoldable pub append_entry : SlotStore → SlotStore × ℕ
append_entry store = (
  record {
    entries =
        store.entries
        ++ (record { slot_key = 0; tab_id = []; payload = []; assigned = false } ∷ []);
    capacity =
        if length store.entries == store.capacity
        then (if store.capacity == 0 then max_harpoon_slots else store.capacity * 2)
        else store.capacity;
  },
  length store.entries,
)

-- The entry goes where there is one for the tab and the key, or behind the others.
unfoldable pub put_entry : SlotStore → Bytes → ℕ → SlotEntry → SlotStore
unfolding append_entry
put_entry store tab key filled = elim (find_entry store tab key) [
  | some i ↦ record store { entries = set store.entries i filled }
  | none ↦
      let (grown, i) = append_entry store in record grown { entries = set grown.entries i filled }
]

pub slot_clear : SlotStore → Bytes → ℕ → SlotStore
slot_clear store tab key = elim (slot_index_from_key key) [
  | none ↦ store
  | some index ↦
      elim (find_index (is_entry_of tab (slot_key_from_index (pos index))) store.entries) [
        | none ↦ store
        | some i ↦ record store { entries = remove_at store.entries i }
      ]
]

pub slot_lookup : SlotStore → Bytes → ℕ → Option Bytes
slot_lookup store tab key = elim (slot_index_from_key key) [
  | none ↦ none
  | some index ↦
      elim (find_first (is_entry_of tab (slot_key_from_index (pos index))) store.entries) [
        | none ↦ none
        | some e ↦ some e.payload
      ]
]

-- The key of the first entry with the text, and 0 if there is none.
pub slot_for_payload : SlotStore → Bytes → Bytes → ℕ
slot_for_payload store tab payload =
    elim (find_first (λ e. e.assigned && (bytes_eq e.tab_id tab && bytes_eq e.payload payload))
      store.entries) [ none ↦ 0 | some e ↦ e.slot_key ]

module _ (g : Glib) where
  unfoldable pub filled_entry : ℕ → Bytes → Bytes → SlotEntry
  filled_entry index tab payload = record {
    slot_key = slot_key_from_index (pos index);
    tab_id = g.strlcpy 32 tab;
    payload = g.strlcpy 1024 payload;
    assigned = true;
  }

  -- The entry is looked up by the key as it was given, and filled in with the key of its slot.
  pub slot_assign : SlotStore → ℕ → Bytes → Bytes → SlotStore
  slot_assign store key tab payload = elim (slot_index_from_key key) [
    | none ↦ store
    | some index ↦
        if is_empty payload then store else put_entry store tab key (filled_entry index tab payload)
  ]

  unfoldable pub skip_spaces : Bytes → Bytes
  skip_spaces [] = []
  skip_spaces (c ∷ cs) = if g.is_space c then skip_spaces cs else c ∷ cs

  -- What stands behind the '@': one key, and nothing but space behind it.
  unfoldable pub parse_key : Bytes → Option ℕ
  unfolding skip_spaces
  parse_key [] = none
  parse_key (key ∷ rest) = elim (slot_index_from_key key) [
    | none ↦ none
    | some index ↦ if is_empty (skip_spaces rest) then some key else none
  ]

  unfoldable pub parse_at : Bytes → Option ℕ
  unfolding parse_key
  parse_at [] = none
  parse_at (c ∷ rest) = if c == 64 then parse_key rest else none

  pub slot_parse_at_key_arg : Bytes → Option ℕ
  unfolding parse_at
  slot_parse_at_key_arg args = parse_at (skip_spaces args)

-- ===== src/Names.antt =====
-- src/names/names_store.c: the custom names of windows, kept under the numbers of match entries. The
-- array with its count is the list of the records. Saving to disk is left out.
pub mod Laws
mod Examples
use cofi.Prelude.{
  ℕ, zero, suc, ℤ, pos, ◌+◌, ◌-◌, Bool, true, false, List, [], ◌∷◌, ◌++◌, Option, none, some, Bytes,
  bytes_eq, is_empty, copy_to, eq_ℤ, is_positive, length, get_elem?, set, remove_at, find_index,
  find_first, leb, ltb, if◌then◌else◌,
}
use cofi.Windows.{WindowInfo}
use cofi.Matching.Registry.{
  MatchEntry, MatchEntryManager, max_windows, max_title_len, match_entry_find_index_by_match_id,
  match_entry_matches_window, matching_create_entry,
}
use cofi.Matching.Registry.Lookup.{at_index}

pub record NameRecord : Type 0 where
  pub match_id : ℤ
  pub custom_name : Bytes

pub record NamesStore : Type 0 where
  pub records : List NameRecord

pub names_store_find_index_by_match_id : NamesStore → ℤ → Option ℕ
names_store_find_index_by_match_id store match_id =
    if is_positive match_id then find_index (λ r. eq_ℤ r.match_id match_id) store.records else none

-- An empty name is no name.
pub names_store_get_by_match_id : NamesStore → ℤ → Option Bytes
names_store_get_by_match_id store match_id =
    elim (names_store_find_index_by_match_id store match_id) [
      | none ↦ none
      | some i ↦ elim (get_elem? store.records i) [
        | none ↦ none
        | some r ↦ if is_empty r.custom_name then none else some r.custom_name
      ]
    ]

pub names_store_find_by_custom_name : NamesStore → Bytes → Option NameRecord
names_store_find_by_custom_name store name =
    find_first (λ r. bytes_eq r.custom_name name) store.records

abbrev pub name_record : ℤ → Bytes → NameRecord
name_record match_id name = record { match_id = match_id; custom_name = copy_to max_title_len name }

-- The store, and whether the name was set.
pub names_store_set : NamesStore → ℤ → Bytes → NamesStore × Bool
names_store_set store match_id name =
    if is_positive match_id
    then (if is_empty name
        then (store, false)
        else (elim (names_store_find_index_by_match_id store match_id) [
          | some i ↦ (record { records = set store.records i (name_record match_id name) }, true)
          | none ↦
              if leb max_windows (length store.records)
              then (store, false)
              else (record { records = store.records ++ (name_record match_id name ∷ []) }, true)
        ]))
    else (store, false)

pub names_store_remove_by_match_id : NamesStore → ℤ → NamesStore × Bool
names_store_remove_by_match_id store match_id =
    elim (names_store_find_index_by_match_id store match_id) [
      | none ↦ (store, false)
      | some i ↦ (record { records = remove_at store.records i }, true)
    ]

-- The numbers of the records, up to `limit` of them.
unfoldable pub collect_from : List NameRecord → ℕ → List ℤ
collect_from [] limit = []
collect_from (r ∷ rs) zero = []
collect_from (r ∷ rs) (suc limit) =
    if is_positive r.match_id
    then r.match_id ∷ collect_from rs limit
    else collect_from rs (suc limit)

unfoldable pub names_store_collect_ids : NamesStore → ℕ → List ℤ
unfolding collect_from
names_store_collect_ids store limit = collect_from store.records limit

-- Whether the record's entry exists and matches the window.
unfoldable pub names_window : MatchEntryManager → WindowInfo → NameRecord → Bool
names_window m w r = elim (at_index m (match_entry_find_index_by_match_id m r.match_id)) [
  | none ↦ false
  | some e ↦ match_entry_matches_window e w
]

-- The name of the first record whose entry matches the window.
pub names_get_for_window : NamesStore → MatchEntryManager → WindowInfo → Option Bytes
names_get_for_window store m w = elim (find_first (names_window m w) store.records) [
  | none ↦ none
  | some r ↦ some r.custom_name
]

-- The registry with the entry at an index bound to the window.
unfoldable pub bind_entry : MatchEntryManager → Option ℕ → WindowInfo → MatchEntryManager
bind_entry m none w = m
bind_entry m (some i) w = elim (get_elem? m.entries i) [
  | none ↦ m
  | some e ↦ record m {
    entries = set m.entries i (record e { bound_x11_id = w.id; assigned = true });
  }
]

unfoldable pub assign_new :
    NamesStore → MatchEntryManager → WindowInfo → Bytes → NamesStore × MatchEntryManager × Bool
assign_new store m w name =
    let (m', created) = matching_create_entry m w in
    (elim created [
      | none ↦ (store, m', false)
      | some k ↦
          if is_positive k
          then (let (store', ok) = names_store_set store k name in (store', m', ok))
          else (store, m', false)
    ])

-- The names, the registry, and whether the name was assigned.
pub names_assign_window :
    NamesStore → MatchEntryManager → WindowInfo → Bytes → NamesStore × MatchEntryManager × Bool
names_assign_window store m w name =
    if is_empty name
    then (store, m, false)
    else (elim (find_first (names_window m w) store.records) [
      | none ↦ assign_new store m w name
      | some r ↦
          let (store', ok) = names_store_set store r.match_id name in
          (store', bind_entry m (match_entry_find_index_by_match_id m r.match_id) w, ok)
    ])

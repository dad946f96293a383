-- ===== src/Names/Laws.antt =====
-- src/names/names_store.c: the store as a map from numbers to names.
use cofi.Prelude.{
  ℕ, ℤ, ◌-◌, ◌<◌, ◌≡◌, ◌⊎◌, ap, inl, inr, Bool, true, false, [], ◌∷◌, ◌++◌, Option, none, some,
  Bytes, is_empty, eq_ℤ, eq_ℤ_iff, eq_ℤ_refl, is_positive, length, set, find_index, find_first,
  find_first-find_index, find_first-set_self, find_first-set_ne, find_first-snoc,
  find_first_of_none, take_all, if◌then◌else◌, arith, Bool-cases, Option-cases,
}
use cofi.Matching.Registry.{max_title_len}
use cofi.Names.{
  NameRecord, NamesStore, name_record, names_store_find_index_by_match_id,
  names_store_get_by_match_id, names_store_set,
}

abbrev has_id : ℤ → NameRecord → Bool
has_id k r = eq_ℤ r.match_id k

-- The name in a record, if it is not empty.
abbrev name_of : Option NameRecord → Option Bytes
name_of none = none
name_of (some r) = if is_empty r.custom_name then none else some r.custom_name

get-find_first :
    (store : NamesStore) (k : ℤ)
    → is_positive k ≡ true
    → names_store_get_by_match_id store k ≡ name_of (find_first (has_id k) store.records)
unfolding names_store_get_by_match_id names_store_find_index_by_match_id
get-find_first store k t =
    rw (t, names_store_get_by_match_id)
      (elim (Option-cases (find_index (has_id k) store.records)) [
        | inl e ↦ ground (arith, find_first-find_index (has_id k) store.records)
        | inr (i, e) ↦ ground (arith, find_first-find_index (has_id k) store.records)
      ])

-- What a successful `names_store_set` makes of the records.
abbrev StoredAs : NamesStore → ℤ → Bytes → NamesStore → Type 0
StoredAs store k name store' =
    ((find_index (has_id k) store.records ≡ none)
      × (store'.records ≡ store.records ++ (name_record k name ∷ [])))
    ⊎ ((i : ℕ) × (find_index (has_id k) store.records ≡ some i)
        × (store'.records ≡ set store.records i (name_record k name)))

set-StoredAs :
    (store : NamesStore) (k : ℤ) (name : Bytes)
    → (names_store_set store k name).1 ≡ true
    → (is_positive k ≡ true)
      × (is_empty name ≡ false)
      × StoredAs store k name (names_store_set store k name).0
unfolding names_store_set names_store_find_index_by_match_id
set-StoredAs store k name h = elim (Bool-cases (is_positive k)) [
  | inr f ↦ absurd (ground arith)
  | inl t ↦ elim (Bool-cases (is_empty name)) [
    | inl empty ↦ absurd (ground arith)
    | inr there ↦ elim (Option-cases (find_index (has_id k) store.records)) [
      | inl e ↦ (t, there, inl (e, ground arith))
      | inr (i, e) ↦ (t, there, inr (i, e, ground arith))
    ]
  ]
]

-- If a name that fits its buffer is set for a number, the number has that name, and every other
-- number has the name, or none, that it had.
pub get-set :
    (store : NamesStore) (k j : ℤ) (name : Bytes)
    → length name < max_title_len
    → (names_store_set store k name).1 ≡ true
    → is_positive j ≡ true
    → names_store_get_by_match_id (names_store_set store k name).0 j
      ≡ (if eq_ℤ k j then some name else names_store_get_by_match_id store j)
get-set store k j name fits ok tj =
    let (tk, there, stored) = set-StoredAs store k name ok in
    let store' = (names_store_set store k name).0 in
    rw (get-find_first store' j tj, get-find_first store j tj)
      (elim (Bool-cases (eq_ℤ k j)) [
        | inl same ↦
            let at_k : k ≡ j = (eq_ℤ_iff k j).0 same in
            rw same (
              rw (← at_k) (elim stored [
                | inl (absent, longer) ↦ rw longer (
                    ground (
                      arith,
                      find_first-snoc (has_id k) store.records (name_record k name),
                      find_first_of_none (has_id k) store.records absent,
                      eq_ℤ_refl k,
                      take_all (max_title_len - 1) name,
                    ))
                | inr (i, found, replaced) ↦ rw replaced (
                    ground (
                      arith,
                      find_first-set_self (has_id k) store.records (name_record k name) found
                          (eq_ℤ_refl k),
                      take_all (max_title_len - 1) name,
                    ))
              ]))
        | inr other ↦ rw other (
            ap name_of (elim stored [
              | inl (absent, longer) ↦
                  rw longer
                    (ground (arith, find_first-snoc (has_id j) store.records (name_record k name)))
              | inr (i, found, replaced) ↦ rw replaced (
                  find_first-set_ne (has_id k) (has_id j) store.records (name_record k name) found
                    (λ r rk.
                      ground (arith, eq_ℤ_iff r.match_id k, eq_ℤ_iff r.match_id j, eq_ℤ_iff k j))
                    other)
            ]))
      ])

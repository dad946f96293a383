-- ===== src/Geometry/Layouts/Refinement.antt =====
-- The records refine the map, over any sequence of calls.
use cofi.Prelude.{
  ℕ, ℤ, ◌<◌, ◌≡◌, refl, sym, ap, subst, ◌∙◌, Bool, true, false, ◌&&◌, List, [], ◌∷◌, ◌++◌, Option,
  none, some, length, set, remove_at, find_index, find_first, find_first-remove_at_ne,
  find_first_of_none, is_positive, eq_ℤ, eq_ℤ_iff, if◌then◌else◌, arith, Bool-cases, inl, inr,
}
use cofi.Matching.Registry.{max_windows}
use cofi.Geometry.Layouts.{LayoutRecord, is_layout_of, layout_store_get, layout_store_clear}
use cofi.Geometry.Layouts.Map.{
  Op, save, forget, is_valid, map_step, store_step, Once, get_is_find_first, differs,
  found_or_other, gone_after, set_refused, set_accepted, clear_is,
}

get_named :
    (records : List LayoutRecord) (id : ℤ)
    → is_positive id ≡ true
    → layout_store_get records id ≡ find_first (is_layout_of id) records
get_named records id named = get_is_find_first records id ∙ rw named refl

get_unnamed :
    (records : List LayoutRecord) (id : ℤ)
    → is_positive id ≡ false
    → layout_store_get records id ≡ none
get_unnamed records id unnamed = get_is_find_first records id ∙ rw unnamed refl

valid_named : (r : LayoutRecord) → is_valid r ≡ true → is_positive r.match_id ≡ true
valid_named r h = at (is_positive r.match_id) (is_positive r.width) (is_positive r.height) h
  where
    at : (p q t : Bool) → (p && q && t) ≡ true → p ≡ true
    at p q t e = ground (arith, e)

abbrev put : List LayoutRecord → LayoutRecord → Option ℕ → List LayoutRecord
put records r found = elim found [ none ↦ records ++ r ∷ [] | some i ↦ set records i r ]

save_valid :
    (records : List LayoutRecord) (r : LayoutRecord) (id : ℤ)
    → is_valid r ≡ true
    → layout_store_get (put records r (find_index (is_layout_of r.match_id) records)) id
      ≡ (if eq_ℤ r.match_id id then some r else layout_store_get records id)
save_valid records r id h =
    let later = put records r (find_index (is_layout_of r.match_id) records) in
    elim (Bool-cases (is_positive id)) [
      | inl named ↦
          get_named later id named
          ∙ found_or_other records r id (find_index (is_layout_of r.match_id) records) refl
          ∙ ap (λ o. if eq_ℤ r.match_id id then some r else o) (sym (get_named records id named))
      | inr unnamed ↦
          get_unnamed later id unnamed ∙ rw (other unnamed) (sym (get_unnamed records id unnamed))
    ]
  where
    other : is_positive id ≡ false → eq_ℤ r.match_id id ≡ false
    other unnamed = elim (Bool-cases (eq_ℤ r.match_id id)) [
      | inl same ↦
          let named =
            subst (λ n. is_positive n ≡ true) ((eq_ℤ_iff r.match_id id).0 same) (valid_named r h) in
          absurd (ground (arith, unnamed, named))
      | inr differs_from ↦ differs_from
    ]

forget_at :
    (records : List LayoutRecord) (gone id : ℤ) (found : Option ℕ)
    → Once records
    → find_index (is_layout_of gone) records ≡ found
    → find_first (is_layout_of id) (elim found [ none ↦ records | some i ↦ remove_at records i ])
      ≡ (if eq_ℤ gone id then none else find_first (is_layout_of id) records)
forget_at records gone id none once e = elim (Bool-cases (eq_ℤ gone id)) [
  | inl same ↦ rw same (
      subst (λ n. find_first (is_layout_of n) records ≡ none) ((eq_ℤ_iff gone id).0 same)
        (find_first_of_none (is_layout_of gone) records e))
  | inr other ↦ rw other refl
]
forget_at records gone id (some i) once e = elim (Bool-cases (eq_ℤ gone id)) [
  | inl same ↦ rw same (
      subst (λ n. find_first (is_layout_of n) (remove_at records i) ≡ none)
        ((eq_ℤ_iff gone id).0 same) (gone_after records gone once e))
  | inr other ↦ rw other (
      find_first-remove_at_ne (is_layout_of gone) (is_layout_of id) records e
        (differs gone id other))
]

pub cleared_named :
    (records : List LayoutRecord) (gone : ℤ)
    → is_positive gone ≡ true
    → (layout_store_clear records gone).0 ≡ (elim (find_index (is_layout_of gone) records) [
      | none ↦ records
      | some i ↦ remove_at records i
    ])
cleared_named records gone named = clear_is records gone ∙ rw named refl

pub cleared_unnamed :
    (records : List LayoutRecord) (gone : ℤ)
    → is_positive gone ≡ false
    → (layout_store_clear records gone).0 ≡ records
cleared_unnamed records gone unnamed = clear_is records gone ∙ rw unnamed refl

forget_lem :
    (records : List LayoutRecord) (gone id : ℤ)
    → Once records
    → layout_store_get (layout_store_clear records gone).0 id
      ≡ (if eq_ℤ gone id then none else layout_store_get records id)
forget_lem records gone id once = elim (Bool-cases (is_positive id)) [
  | inr unnamed ↦
      get_unnamed (layout_store_clear records gone).0 id unnamed
      ∙ rw (get_unnamed records id unnamed) (same_both (eq_ℤ gone id))
  | inl named ↦ elim (Bool-cases (is_positive gone)) [
    | inl gone_named ↦
        ap (λ rs. layout_store_get rs id) (cleared_named records gone gone_named)
        ∙ get_named
            (elim (find_index (is_layout_of gone) records) [
              | none ↦ records
              | some i ↦ remove_at records i
            ])
            id named
        ∙ forget_at records gone id (find_index (is_layout_of gone) records) once refl
        ∙ ap (λ o. if eq_ℤ gone id then none else o) (sym (get_named records id named))
    | inr gone_unnamed ↦
        ap (λ rs. layout_store_get rs id) (cleared_unnamed records gone gone_unnamed)
        ∙ rw (apart named gone_unnamed) refl
  ]
]
  where
    same_both : (b : Bool) → ◌≡◌ {A = Option LayoutRecord} none (if b then none else none)
    same_both true = refl
    same_both false = refl

    apart : is_positive id ≡ true → is_positive gone ≡ false → eq_ℤ gone id ≡ false
    apart named unnamed = elim (Bool-cases (eq_ℤ gone id)) [
      | inl same ↦
          let named' = subst (λ n. is_positive n ≡ false) ((eq_ℤ_iff gone id).0 same) unnamed in
          absurd (ground (arith, named, named'))
      | inr differs_from ↦ differs_from
    ]

pub step_refines :
    (records : List LayoutRecord) (op : Op) (id : ℤ)
    → Once records
    → length records < max_windows
    → layout_store_get (store_step records op) id ≡ map_step (layout_store_get records) op id
step_refines records (forget gone) id once room = forget_lem records gone id once
step_refines records (save r) id once room = elim (Bool-cases (is_valid r)) [
  | inl valid ↦
      ap (λ rs. layout_store_get rs id) (set_accepted records r valid room)
      ∙ save_valid records r id valid
      ∙ sym (if_and (is_valid r) (eq_ℤ r.match_id id) (some r) (layout_store_get records id) valid)
  | inr invalid ↦
      ap (λ rs. layout_store_get rs id) (set_refused records r invalid)
      ∙ sym (
          if_not_and (is_valid r) (eq_ℤ r.match_id id) (some r) (layout_store_get records id)
            invalid)
]
  where
    if_and :
        (p q : Bool) (a b : Option LayoutRecord)
        → p ≡ true
        → (if p && q then a else b) ≡ (if q then a else b)
    if_and true q a b h = refl
    if_and false q a b h = cc

    if_not_and :
        (p q : Bool) (a b : Option LayoutRecord) → p ≡ false → (if p && q then a else b) ≡ b
    if_not_and true q a b h = cc
    if_not_and false q a b h = refl

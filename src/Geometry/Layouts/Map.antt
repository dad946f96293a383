-- ===== src/Geometry/Layouts/Map.antt =====
-- The layouts are a map from numbers to layouts.
use cofi.Prelude.{
  ℕ, ℤ, ◌<◌, ◌≡◌, ◌≢◌, refl, sym, ap, subst, ◌∙◌, Bool, true, false, not, ◌&&◌, ◌||◌, List, [], ◌∷◌,
  ◌++◌, map, Option, none, some, length, get_elem?, set, remove_at, find_index, find_first, All,
  Distinct, find_first-find_index, find_first-set_self, find_first-set_ne, find_first-snoc,
  find_first_of_none, is_positive, eq_ℤ, eq_ℤ_iff, leb, if◌then◌else◌, arith, Bool-cases,
  Option-cases, inl, inr,
}
use cofi.Matching.Registry.{max_windows}
use cofi.Geometry.Layouts.{
  LayoutRecord, is_layout_of, layout_store_find_index, layout_store_set, layout_store_get,
  layout_store_clear,
}

-- The abstract store: the layout of each number.
abbrev pub Layouts : Type 0
Layouts = ℤ → Option LayoutRecord

pub data Op : Type 0 where
  save : LayoutRecord → Op
  forget : ℤ → Op

-- A layout that has a number and a size.
abbrev pub is_valid : LayoutRecord → Bool
is_valid r = is_positive r.match_id && is_positive r.width && is_positive r.height

-- A valid layout replaces that of its number.
abbrev pub map_step : Layouts → Op → Layouts
map_step layouts (save r) match_id =
    if is_valid r && eq_ℤ r.match_id match_id then some r else layouts match_id
map_step layouts (forget gone) match_id = if eq_ℤ gone match_id then none else layouts match_id

abbrev pub store_step : List LayoutRecord → Op → List LayoutRecord
store_step records (save r) = (layout_store_set records r).0
store_step records (forget gone) = (layout_store_clear records gone).0

unfoldable pub map_run : List Op → Layouts → Layouts
map_run [] layouts = layouts
map_run (op ∷ ops) layouts = map_run ops (map_step layouts op)

unfoldable pub store_run : List Op → List LayoutRecord → List LayoutRecord
unfolding layout_store_set layout_store_clear
store_run [] records = records
store_run (op ∷ ops) records = store_run ops (store_step records op)

abbrev pub Once : List LayoutRecord → Type 0
Once records = Distinct (map (λ r. r.match_id) records)

pub get_is_find_first :
    (records : List LayoutRecord) (match_id : ℤ)
    → layout_store_get records match_id
      ≡ (if is_positive match_id then find_first (is_layout_of match_id) records else none)
get_is_find_first records match_id = at (is_positive match_id)
  where
    at :
        (b : Bool)
        → (elim (if not b then none else find_index (is_layout_of match_id) records) [
          | none ↦ none
          | some idx ↦ get_elem? records idx
        ])
          ≡ (if b then find_first (is_layout_of match_id) records else none)
    at true = sym (find_first-find_index (is_layout_of match_id) records)
    at false = refl

pub differs :
    (a b : ℤ)
    → eq_ℤ a b ≡ false
    → (r : LayoutRecord) → is_layout_of a r ≡ true
    → is_layout_of b r ≡ false
differs a b h r e = elim (Bool-cases (is_layout_of b r)) [
  | inl same ↦ absurd (
      ground (
        arith,
        h,
        (eq_ℤ_iff a b).1 (sym ((eq_ℤ_iff r.match_id a).0 e) ∙ (eq_ℤ_iff r.match_id b).0 same),
      ))
  | inr other ↦ other
]

pub found_or_other :
    (records : List LayoutRecord) (r : LayoutRecord) (id : ℤ) (found : Option ℕ)
    → find_index (is_layout_of r.match_id) records ≡ found
    → find_first
        (is_layout_of id)
        (elim found [ none ↦ records ++ r ∷ [] | some i ↦ set records i r ])
      ≡ (if eq_ℤ r.match_id id then some r else find_first (is_layout_of id) records)
found_or_other records r id none e = elim (Bool-cases (eq_ℤ r.match_id id)) [
  | inl same ↦
      let gone : find_first (is_layout_of id) records ≡ none =
        subst (λ n. find_first (is_layout_of n) records ≡ none) ((eq_ℤ_iff r.match_id id).0 same)
          (find_first_of_none (is_layout_of r.match_id) records e) in
      find_first-snoc (is_layout_of id) records r ∙ rw (gone, same) refl
  | inr other ↦ find_first-snoc (is_layout_of id) records r ∙ ground (arith, other)
]
found_or_other records r id (some i) e = elim (Bool-cases (eq_ℤ r.match_id id)) [
  | inl same ↦ rw same (
      find_first-set_self (is_layout_of id) records r
        (subst (λ n. find_index (is_layout_of n) records ≡ some i) ((eq_ℤ_iff r.match_id id).0 same)
          e)
        same)
  | inr other ↦ rw other (
      find_first-set_ne (is_layout_of r.match_id) (is_layout_of id) records r e
        (differs r.match_id id other) other)
]

pub set_once :
    (records : List LayoutRecord) (r : LayoutRecord) {i : ℕ}
    → find_index (is_layout_of r.match_id) records ≡ some i
    → map (λ q. q.match_id) (set records i r) ≡ map (λ q. q.match_id) records
unfolding find_index
set_once [] r e = cc
set_once (q ∷ records) r {i} e = elim (Bool-cases (is_layout_of r.match_id q)) [
  | inl same ↦ ground (arith, e, same, (eq_ℤ_iff q.match_id r.match_id).0 same)
  | inr other ↦ elim (Option-cases (find_index (is_layout_of r.match_id) records)) [
    | inl none_there ↦ absurd (ground (arith, e, other, none_there))
    | inr (j, there) ↦ ground (arith, e, other, there, set_once records r there)
  ]
]

pub all_other :
    (records : List LayoutRecord) (id : ℤ)
    → find_index (is_layout_of id) records ≡ none
    → All (λ n. n ≢ id) (map (λ q. q.match_id) records)
unfolding find_index
all_other [] id e = tt
all_other (q ∷ records) id e = elim (Bool-cases (is_layout_of id q)) [
  | inl same ↦ absurd (ground (arith, e, same))
  | inr other ↦ elim (Option-cases (find_index (is_layout_of id) records)) [
    | inl none_there ↦ (
      (λ s. absurd (ground (arith, other, (eq_ℤ_iff q.match_id id).1 s))),
      all_other records id none_there,
    )
    | inr (j, there) ↦ absurd (ground (arith, e, other, there))
  ]
]

pub map_snoc :
    (records : List LayoutRecord) (r : LayoutRecord)
    → map (λ q. q.match_id) (records ++ r ∷ []) ≡ map (λ q. q.match_id) records ++ r.match_id ∷ []
map_snoc [] r = refl
map_snoc (q ∷ records) r = ap (λ t. q.match_id ∷ t) (map_snoc records r)

none_after :
    (records : List LayoutRecord) (id : ℤ)
    → All (λ n. n ≢ id) (map (λ q. q.match_id) records)
    → find_first (is_layout_of id) records ≡ none
none_after [] id h = refl
none_after (q ∷ records) id h = elim (Bool-cases (is_layout_of id q)) [
  | inl same ↦ absurd (h.0 ((eq_ℤ_iff q.match_id id).0 same))
  | inr other ↦ rw other (none_after records id h.1)
]

pub gone_after :
    (records : List LayoutRecord) (id : ℤ) {i : ℕ}
    → Once records
    → find_index (is_layout_of id) records ≡ some i
    → find_first (is_layout_of id) (remove_at records i) ≡ none
unfolding find_index
gone_after [] id once e = cc
gone_after (q ∷ records) id {i} once e = elim (Bool-cases (is_layout_of id q)) [
  | inl same ↦
      let here = none_after records id (
        subst (λ n. All (λ m. m ≢ n) (map (λ p. p.match_id) records))
          ((eq_ℤ_iff q.match_id id).0 same) once.0) in
      ground (arith, e, same, here)
  | inr other ↦ elim (Option-cases (find_index (is_layout_of id) records)) [
    | inl none_there ↦ absurd (ground (arith, e, other, none_there))
    | inr (j, there) ↦ ground (arith, e, other, there, gone_after records id once.1 there)
  ]
]

refused : (p q t : Bool) → (p && q && t) ≡ false → (not p || not q || not t) ≡ true
refused p q t h = ground (arith, h)

accepted : (p q t : Bool) → (p && q && t) ≡ true → ((not p || not q || not t) ≡ false) × (p ≡ true)
accepted p q t h = ground (arith, h)

pub set_refused :
    (records : List LayoutRecord) (r : LayoutRecord)
    → is_valid r ≡ false
    → (layout_store_set records r).0 ≡ records
unfolding layout_store_set
set_refused records r h =
    rw (refused (is_positive r.match_id) (is_positive r.width) (is_positive r.height) h) refl

pub set_accepted :
    (records : List LayoutRecord) (r : LayoutRecord)
    → is_valid r ≡ true
    → length records < max_windows
    → (layout_store_set records r).0 ≡ (elim (find_index (is_layout_of r.match_id) records) [
      | none ↦ records ++ r ∷ []
      | some i ↦ set records i r
    ])
unfolding layout_store_set
set_accepted records r h room =
    let (ok, named) =
      accepted (is_positive r.match_id) (is_positive r.width) (is_positive r.height) h in
    let free : leb max_windows (length records) ≡ false = ground (arith, room) in
    elim (Option-cases (find_index (is_layout_of r.match_id) records)) [
      | inl e ↦ rw (ok, layout_store_set) (rw (named, e, free) refl)
      | inr (i, e) ↦ rw (ok, layout_store_set) (rw (named, e) refl)
    ]

pub clear_is :
    (records : List LayoutRecord) (id : ℤ)
    → (layout_store_clear records id).0 ≡ (elim (layout_store_find_index records id) [
      | none ↦ records
      | some i ↦ remove_at records i
    ])
unfolding layout_store_clear
clear_is records id = elim (Option-cases (layout_store_find_index records id)) [
  | inl e ↦ rw (e, layout_store_clear) refl
  | inr (i, e) ↦ rw (e, layout_store_clear) refl
]

-- ===== src/Collection/Kept.antt =====
-- src/core/app/matching_gc.c: which entries are kept.
use cofi.Prelude.{
  ℕ, zero, suc, ℤ, ◌+◌, ◌-◌, ◌≤◌, ◌≡◌, refl, ap, ◌∙◌, Bool, true, ◌&&◌, ◌||◌, List, [], ◌∷◌, ◌++◌,
  none, length, length-append, exists_in, is_positive, eq_ℤ, eq_ℤ_iff, if◌then◌else◌, arith,
  Bool-cases, inl, inr,
}
use cofi.Matching.Registry.{MatchEntry, max_windows, match_id_is_referenced}
use cofi.Matching.Registry.Deletion.{entry_of, referenced_entries, gc_lem}
use cofi.Slots.{max_harpoon_slots}
use cofi.Harpoon.{HarpoonSlot}
use cofi.Names.{NameRecord, collect_from, names_store_collect_ids}
use cofi.Rules.Config.{RulesConfig, max_rules}
use cofi.Collection.{
  LayoutRecord, AppData, max_referenced, slot_ids, layout_store_collect_ids, rule_ids, extend,
  referenced_ids, matching_run_gc,
}

abbrev has : ℤ → List ℤ → Bool
has k ids = exists_in (λ r. eq_ℤ r k) ids

has-append : (k : ℤ) (xs ys : List ℤ) → has k (xs ++ ys) ≡ (has k xs || has k ys)
has-append k [] ys = refl
has-append k (x ∷ xs) ys = ground (arith, has-append k xs ys)

-- Whether a slot, a name, a layout or a rule refers to a number.
abbrev pub is_used : AppData → ℤ → Bool
is_used app k =
    ((exists_in (λ s. s.assigned && eq_ℤ s.match_id k) app.slots
        || exists_in (λ n. eq_ℤ n.match_id k) app.names.records)
      || exists_in (λ l. eq_ℤ l.match_id k) app.layouts)
    || exists_in (λ r. eq_ℤ r.match_id k) app.rules_config

module _ (k : ℤ) (p : is_positive k ≡ true) where
  has-slot_ids :
      (ss : List HarpoonSlot)
      → has k (slot_ids ss) ≡ exists_in (λ s. s.assigned && eq_ℤ s.match_id k) ss
  unfolding slot_ids
  has-slot_ids [] = refl
  has-slot_ids (s ∷ ss) = ground (arith, has-slot_ids ss, eq_ℤ_iff s.match_id k, p)

  has-collect_from :
      (rs : List NameRecord) (room : ℕ)
      → length rs ≤ room
      → has k (collect_from rs room) ≡ exists_in (λ n. eq_ℤ n.match_id k) rs
  unfolding collect_from
  has-collect_from [] room h = refl
  has-collect_from (r ∷ rs) zero h = absurd (omega arith)
  has-collect_from (r ∷ rs) (suc room) h = ground (
    arith,
    has-collect_from rs room (omega arith),
    has-collect_from rs (suc room) (omega arith),
    eq_ℤ_iff r.match_id k,
    p,
  )

  has-layouts :
      (rs : List LayoutRecord) (room : ℕ)
      → length rs ≤ room
      → has k (layout_store_collect_ids rs room) ≡ exists_in (λ n. eq_ℤ n.match_id k) rs
  unfolding layout_store_collect_ids
  has-layouts [] room h = refl
  has-layouts (r ∷ rs) zero h = absurd (omega arith)
  has-layouts (r ∷ rs) (suc room) h = ground (
    arith,
    has-layouts rs room (omega arith),
    has-layouts rs (suc room) (omega arith),
    eq_ℤ_iff r.match_id k,
    p,
  )

  has-rule_ids :
      (rs : RulesConfig) (room : ℕ)
      → length rs ≤ room
      → has k (rule_ids rs room) ≡ exists_in (λ n. eq_ℤ n.match_id k) rs
  unfolding rule_ids
  has-rule_ids [] room h = refl
  has-rule_ids (r ∷ rs) zero h = absurd (omega arith)
  has-rule_ids (r ∷ rs) (suc room) h = ground (
    arith,
    has-rule_ids rs room (omega arith),
    has-rule_ids rs (suc room) (omega arith),
    eq_ℤ_iff r.match_id k,
    p,
  )

length-slot_ids : (ss : List HarpoonSlot) → length (slot_ids ss) ≤ length ss
unfolding slot_ids
length-slot_ids [] = omega arith
length-slot_ids (s ∷ ss) = ground (arith, length-slot_ids ss)

length-names : (rs : List NameRecord) (room : ℕ) → length (collect_from rs room) ≤ length rs
unfolding collect_from
length-names [] room = omega arith
length-names (r ∷ rs) zero = omega arith
length-names (r ∷ rs) (suc room) = ground (arith, length-names rs room, length-names rs (suc room))

length-layouts :
    (rs : List LayoutRecord) (room : ℕ) → length (layout_store_collect_ids rs room) ≤ length rs
unfolding layout_store_collect_ids
length-layouts [] room = omega arith
length-layouts (r ∷ rs) zero = omega arith
length-layouts (r ∷ rs) (suc room) =
    ground (arith, length-layouts rs room, length-layouts rs (suc room))

has-extend :
    (k : ℤ) (ids : List ℤ) (collect : ℕ → List ℤ) {b : Bool}
    → has k (collect (max_referenced - length ids)) ≡ b
    → has k (extend ids collect) ≡ (has k ids || b)
unfolding extend
has-extend k ids collect e = has-append k ids _ ∙ ap (λ b. has k ids || b) e

length-extend :
    (ids : List ℤ) (collect : ℕ → List ℤ) {n : ℕ}
    → length (collect (max_referenced - length ids)) ≤ n
    → length (extend ids collect) ≤ length ids + n
unfolding extend
length-extend ids collect h =
    omega (arith, length-append ids (collect (max_referenced - length ids)))

-- The parts are no larger than their arrays.
pub record FitsArrays (app : AppData) : Type 0 where
  pub slots : length app.slots ≤ max_harpoon_slots
  pub names : length app.names.records ≤ max_windows
  pub layouts : length app.layouts ≤ max_windows
  pub rules : length app.rules_config ≤ max_rules

-- The array has room for the numbers of every part.
has-referenced_ids :
    (app : AppData) (k : ℤ)
    → FitsArrays app
    → is_positive k ≡ true
    → has k (referenced_ids app) ≡ is_used app k
unfolding referenced_ids names_store_collect_ids
has-referenced_ids app k fits p =
    has-extend k with_layouts (rule_ids app.rules_config) (
      has-rule_ids k p app.rules_config (max_referenced - length with_layouts)
        (omega (arith, few_names, few_layouts)))
    ∙ ap (λ b. b || exists_in (λ r. eq_ℤ r.match_id k) app.rules_config)
        (has-extend k with_names (layout_store_collect_ids app.layouts) (
            has-layouts k p app.layouts (max_referenced - length with_names)
              (omega (arith, few_names)))
          ∙ ap (λ b. b || exists_in (λ l. eq_ℤ l.match_id k) app.layouts)
              (has-extend k (slot_ids app.slots) (λ limit. collect_from app.names.records limit)
                  (has-collect_from k p app.names.records
                    (max_referenced - length (slot_ids app.slots))
                    (omega (arith, length-slot_ids app.slots)))
                ∙ ap (λ b. b || exists_in (λ n. eq_ℤ n.match_id k) app.names.records)
                    (has-slot_ids k p app.slots)))
  where
    with_names : List ℤ
    with_names = extend (slot_ids app.slots) (λ limit. collect_from app.names.records limit)

    with_layouts : List ℤ
    with_layouts = extend with_names (layout_store_collect_ids app.layouts)

    few_names : length with_names ≤ max_harpoon_slots + max_windows
    few_names = omega (
      arith,
      length-slot_ids app.slots,
      length-extend (slot_ids app.slots) (λ limit. collect_from app.names.records limit)
          (length-names app.names.records (max_referenced - length (slot_ids app.slots))),
    )

    few_layouts : length with_layouts ≤ length with_names + max_windows
    few_layouts = omega (
      arith,
      length-extend with_names (layout_store_collect_ids app.layouts)
          (length-layouts app.layouts (max_referenced - length with_names)),
    )

entry_of-referenced :
    (k : ℤ) (ids : List ℤ) (es : List MatchEntry)
    → is_positive k ≡ true
    → entry_of k (referenced_entries ids es) ≡ (if has k ids then entry_of k es else none)
unfolding match_id_is_referenced
entry_of-referenced k ids [] p = ground arith
entry_of-referenced k ids (e ∷ es) p = elim (Bool-cases (eq_ℤ e.match_id k)) [
  | inl same ↦
      let kept : match_id_is_referenced ids e.match_id ≡ has k ids =
        rw ((eq_ℤ_iff e.match_id k).0 same, p) refl in
      ground (arith, kept, same, entry_of-referenced k ids es p)
  | inr other ↦ ground (arith, other, entry_of-referenced k ids es p)
]

-- Collection removes exactly the entries that no slot, name, layout or rule refers to: a positive
-- number that one of them refers to has the entry it had, if any, and any other positive number has
-- no entry, provided the parts are no larger than their arrays.
pub run_gc_lem :
    (app : AppData) (k : ℤ)
    → FitsArrays app
    → is_positive k ≡ true
    → entry_of k (matching_run_gc app).0.matching.entries
      ≡ (if is_used app k then entry_of k app.matching.entries else none)
unfolding matching_run_gc
run_gc_lem app k fits p = rw (gc_lem app.matching (referenced_ids app)) (
    rw⁻¹ (has-referenced_ids app k fits p)
      (entry_of-referenced k (referenced_ids app) app.matching.entries p))

-- ===== src/Geometry/Layouts/Runs.antt =====
-- The records over any sequence of calls.
use cofi.Prelude.{
  ℕ, zero, suc, ℤ, ◌+◌, ◌≤◌, ◌<◌, ◌≡◌, refl, sym, ap, subst, ◌∙◌, List, [], ◌∷◌, ◌++◌, map, Option,
  none, some, length, length-append, length-set, set, remove_at, find_index, Distinct,
  Distinct-snoc, Distinct-remove_at, map-remove_at, is_positive, eq_ℤ, ◌&&◌, if◌then◌else◌, arith,
  Bool-cases, inl, inr,
}
use cofi.Matching.Registry.{max_windows}
use cofi.Geometry.Layouts.{LayoutRecord, is_layout_of, layout_store_get}
use cofi.Geometry.Layouts.Map.{
  Layouts, Op, save, forget, is_valid, map_step, store_step, map_run, store_run, Once,
  get_is_find_first, set_once, all_other, map_snoc, set_refused, set_accepted,
}
use cofi.Geometry.Layouts.Refinement.{cleared_named, cleared_unnamed, step_refines}

-- What a call keeps: each number once, and at most one record more.
abbrev Kept : ℕ → List LayoutRecord → Type 0
Kept n records = Once records × (length records ≤ suc n)

remove_shorter :
    (records : List LayoutRecord) (i : ℕ) → length (remove_at records i) ≤ length records
remove_shorter [] i = omega arith
remove_shorter (r ∷ records) zero = omega arith
remove_shorter (r ∷ records) (suc i) = omega (arith, remove_shorter records i)

put_keeps :
    (records : List LayoutRecord) (r : LayoutRecord) (found : Option ℕ)
    → Once records
    → find_index (is_layout_of r.match_id) records ≡ found
    → Kept (length records) (elim found [ none ↦ records ++ r ∷ [] | some i ↦ set records i r ])
put_keeps records r none once e = (
  subst Distinct (sym (map_snoc records r)) (
      Distinct-snoc (map (λ q. q.match_id) records) r.match_id once
        (all_other records r.match_id e)),
  omega (arith, length-append records (r ∷ [])),
)
put_keeps records r (some i) once e =
    (subst Distinct (sym (set_once records r e)) once, omega (arith, length-set records i r))

cut_keeps :
    (records : List LayoutRecord) (found : Option ℕ)
    → Once records
    → Kept (length records) (elim found [ none ↦ records | some i ↦ remove_at records i ])
cut_keeps records none once = (once, omega arith)
cut_keeps records (some i) once = (
  subst Distinct (sym (map-remove_at (λ q. q.match_id) records i))
      (Distinct-remove_at (map (λ q. q.match_id) records) i once),
  omega (arith, remove_shorter records i),
)

step_keeps :
    (records : List LayoutRecord) (op : Op)
    → Once records
    → length records < max_windows
    → Kept (length records) (store_step records op)
step_keeps records (save r) once room = elim (Bool-cases (is_valid r)) [
  | inl valid ↦
      subst (Kept (length records)) (sym (set_accepted records r valid room))
        (put_keeps records r (find_index (is_layout_of r.match_id) records) once refl)
  | inr invalid ↦
      subst (Kept (length records)) (sym (set_refused records r invalid)) (once, omega arith)
]
step_keeps records (forget gone) once room = elim (Bool-cases (is_positive gone)) [
  | inl named ↦
      subst (Kept (length records)) (sym (cleared_named records gone named))
        (cut_keeps records (find_index (is_layout_of gone) records) once)
  | inr unnamed ↦
      subst (Kept (length records)) (sym (cleared_unnamed records gone unnamed)) (once, omega arith)
]

run_from :
    (ops : List Op) (records : List LayoutRecord) (layouts : Layouts) (id : ℤ)
    → Once records
    → length records + length ops ≤ max_windows
    → ((n : ℤ) → layout_store_get records n ≡ layouts n)
    → layout_store_get (store_run ops records) id ≡ map_run ops layouts id
unfolding store_run map_run
run_from [] records layouts id once room same = same id
run_from (op ∷ ops) records layouts id once room same =
    let kept = step_keeps records op once (omega (arith, room)) in
    run_from ops (store_step records op) (map_step layouts op) id kept.0
      (omega (arith, room, kept.1))
      (λ n. step_refines records op n once (omega (arith, room)) ∙ same_step op n)
  where
    same_step : (o : Op) (n : ℤ) → map_step (layout_store_get records) o n ≡ map_step layouts o n
    same_step (save r) n = ap (λ l. if is_valid r && eq_ℤ r.match_id n then some r else l) (same n)
    same_step (forget gone) n = ap (λ l. if eq_ℤ gone n then none else l) (same n)

-- The store of layouts refines a map from numbers to layouts: after any calls that save and clear
-- layouts, at most 256 of them on an empty store, each number has the layout that the map has, where
-- a layout without a number or a size is not saved.
pub layout_store_get-map_run :
    (ops : List Op) (match_id : ℤ)
    → length ops ≤ max_windows
    → layout_store_get (store_run ops []) match_id ≡ map_run ops (λ n. none) match_id
layout_store_get-map_run ops match_id b =
    run_from ops [] (λ n. none) match_id tt (omega (arith, b)) (λ n. empty_get n)
  where
    empty_get : (n : ℤ) → layout_store_get [] n ≡ none
    empty_get n = ground (arith, get_is_find_first [] n)

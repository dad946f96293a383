-- ===== src/Matching/Registry/Deletion.antt =====
-- src/matching/match_entry.c: deletion by number, and the garbage collection of entries that no
-- slot, name, layout or rule refers to.
use mathlib.Core.List.{append_assoc}
use cofi.Prelude.{
  ℕ, ℤ, pos, ◌+◌, ◌-◌, ◌<◌, ◌≡◌, ◌≢◌, refl, ap, ap₂, ◌∙◌, Bool, List, [], ◌∷◌, ◌++◌, Option, none,
  some, eq_ℤ, eq_ℤ_iff, length, remove_at, keep_if, find_index, find_first, All, Distinct,
  length-append, remove_at-append, get_elem?-append, arith, Bool-cases, Option-cases, inl, inr,
  length-keep_if-le, is_positive,
}
use cofi.Matching.Registry.{
  MatchEntry, MatchEntryManager, match_entry_delete, match_entry_delete_by_match_id,
  match_entry_find_index_by_match_id, match_entry_gc, gc_from, match_id_is_referenced,
}
use cofi.Matching.Registry.Invariant.{match_ids, IsValid}

-- The entries whose number is in the list.
abbrev pub referenced_entries : List ℤ → List MatchEntry → List MatchEntry
referenced_entries referenced es = keep_if (λ e. match_id_is_referenced referenced e.match_id) es

abbrev manager : List MatchEntry → ℤ → MatchEntryManager
manager es next = record { entries = es; next_match_id = next }

delete-append :
    (seen : List MatchEntry) (x : MatchEntry) (rest : List MatchEntry) (next : ℤ)
    → match_entry_delete (manager (seen ++ (x ∷ rest)) next) (pos (length seen))
      ≡ manager (seen ++ rest) next
unfolding match_entry_delete
delete-append seen x rest next =
    ground (arith, length-append seen (x ∷ rest), remove_at-append seen x rest)

-- The loop with the entries before its index behind it.
gc_from-eq :
    (referenced : List ℤ) (next : ℤ) (seen rest : List MatchEntry) (removed : ℕ)
    → gc_from (length rest) (manager (seen ++ rest) next) referenced (length seen) removed ≡ (
      manager (seen ++ referenced_entries referenced rest) next,
      removed + (length rest - length (referenced_entries referenced rest)),
    )
unfolding gc_from
gc_from-eq referenced next seen [] removed = ground arith
gc_from-eq referenced next seen (x ∷ rest) removed =
    elim (Bool-cases (match_id_is_referenced referenced x.match_id)) [
      | inl kept ↦
          rw (get_elem?-append seen x rest, kept, gc_from)
            ((rw
                (
                  regroup rest,
                  regroup (referenced_entries referenced rest),
                  length-append seen (x ∷ []),
                )
                at (gc_from-eq referenced next (seen ++ (x ∷ [])) rest removed))
              ∙ ap
                  (λ n.
                    (manager (seen ++ (x ∷ referenced_entries referenced rest)) next, removed + n))
                  (omega arith))
      | inr dropped ↦
          rw (get_elem?-append seen x rest, dropped, gc_from, delete-append seen x rest next)
            (rw (gc_from-eq referenced next seen rest (removed + 1)) (
              ap₂ (λ es n. (manager (seen ++ es) next, n)) refl
                (omega (
                  arith,
                  length-keep_if-le
                      (λ (e : MatchEntry). match_id_is_referenced referenced e.match_id) rest,
                ))))
    ]
  where
    regroup : (es : List MatchEntry) → (seen ++ (x ∷ [])) ++ es ≡ seen ++ (x ∷ es)
    regroup es = append_assoc seen (x ∷ []) es

-- The collection as a choice of entries.
pub gc_lem :
    (m : MatchEntryManager) (referenced : List ℤ)
    → let kept = referenced_entries referenced m.entries in
      match_entry_gc m referenced ≡ (record m { entries = kept }, length m.entries - length kept)
unfolding match_entry_gc
gc_lem m referenced =
    gc_from-eq referenced m.next_match_id [] m.entries 0
    ∙ ap (λ n. (record m { entries = referenced_entries referenced m.entries }, n)) (omega arith)

-- The entry under a number.
abbrev pub entry_of : ℤ → List MatchEntry → Option MatchEntry
entry_of k es = find_first (λ e. eq_ℤ e.match_id k) es

abbrev has_number : ℤ → MatchEntry → Bool
has_number k e = eq_ℤ e.match_id k

find_index-bound :
    (k : ℤ) (es : List MatchEntry) {i : ℕ} → find_index (has_number k) es ≡ some i → i < length es
unfolding find_index
find_index-bound k [] h = cc
find_index-bound k (e ∷ es) {i} h = elim (Bool-cases (has_number k e)) [
  | inl t ↦ ground arith
  | inr f ↦ elim (Option-cases (find_index (has_number k) es)) [
    | inl none_left ↦ ground arith
    | inr (j, found) ↦ ground (arith, find_index-bound k es found)
  ]
]

entry_of-remove_at_ne :
    (k j : ℤ) (es : List MatchEntry) {i : ℕ}
    → find_index (has_number k) es ≡ some i
    → j ≢ k
    → entry_of j (remove_at es i) ≡ entry_of j es
unfolding find_index
entry_of-remove_at_ne k j [] h ne = cc
entry_of-remove_at_ne k j (e ∷ es) {i} h ne = elim (Bool-cases (has_number k e)) [
  | inl t ↦ ground (arith, eq_ℤ_iff e.match_id k, eq_ℤ_iff e.match_id j)
  | inr f ↦ elim (Option-cases (find_index (has_number k) es)) [
    | inl none_left ↦ ground arith
    | inr (i', found) ↦ ground (arith, entry_of-remove_at_ne k j es found ne)
  ]
]

find_index_of_absent :
    (k : ℤ) (es : List MatchEntry)
    → All (λ n. n ≢ k) (match_ids es)
    → find_index (has_number k) es ≡ none
unfolding find_index
find_index_of_absent k [] h = refl
find_index_of_absent k (e ∷ es) h =
    ground (arith, eq_ℤ_iff e.match_id k, find_index_of_absent k es h.1, h.0)

find_index-remove_at :
    (k : ℤ) (es : List MatchEntry) {i : ℕ}
    → Distinct (match_ids es)
    → find_index (has_number k) es ≡ some i
    → find_index (has_number k) (remove_at es i) ≡ none
unfolding find_index
find_index-remove_at k [] d h = cc
find_index-remove_at k (e ∷ es) {i} d h = elim (Bool-cases (has_number k e)) [
  | inl t ↦
      let same : e.match_id ≡ k = (eq_ℤ_iff e.match_id k).0 t in
      let at_head : i ≡ 0 = ground arith in rw at_head (find_index_of_absent k es (rw same at d.0))
  | inr f ↦ elim (Option-cases (find_index (has_number k) es)) [
    | inl none_left ↦ ground arith
    | inr (i', found) ↦ ground (arith, find_index-remove_at k es d.1 found)
  ]
]

-- In a valid registry, after the deletion of a number no entry has it, and under any other number
-- there is the entry that was there before.
pub delete_by_match_id_lem :
    (m : MatchEntryManager) (k j : ℤ)
    → IsValid m
    → j ≢ k
    → let m' = match_entry_delete_by_match_id m k in
      (match_entry_find_index_by_match_id m' k ≡ none)
      × (entry_of j m'.entries ≡ entry_of j m.entries)
unfolding match_entry_delete_by_match_id match_entry_find_index_by_match_id match_entry_delete
delete_by_match_id_lem m k j v ne = elim (Bool-cases (is_positive k)) [
  | inl p ↦ elim (Option-cases (find_index (has_number k) m.entries)) [
    | inl e ↦ (ground arith, ground arith)
    | inr (i, e) ↦ (
      ground (arith, find_index-bound k m.entries e, find_index-remove_at k m.entries v.distinct e),
      ground (arith, find_index-bound k m.entries e, entry_of-remove_at_ne k j m.entries e ne),
    )
  ]
  | inr p ↦ (ground arith, ground arith)
]

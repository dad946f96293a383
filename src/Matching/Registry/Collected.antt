-- ===== src/Matching/Registry/Collected.antt =====
-- src/matching/match_entry.c: what the garbage collection leaves, told without the code's own test.
use mathlib.Core.List.{Memᴰ}
use mathlib.Core.List.Memᴰ.{head, tail}
use cofi.Prelude.{
  ℤ, ◌-◌, ◌<◌, ◌≡◌, refl, sym, true, false, List, [], ◌∷◌, pos_part, eq_ℤ, eq_ℤ_iff, is_positive,
  exists_in, length, arith, Bool-cases, inl, inr,
}
use cofi.Matching.Registry.{MatchEntry, MatchEntryManager, match_entry_gc, match_id_is_referenced}
use cofi.Matching.Registry.Deletion.{referenced_entries, gc_lem}

-- The number is positive and in the list.
abbrev pub IsListed : List ℤ → ℤ → Type 0
IsListed referenced k = (0 < pos_part k) × Memᴰ k referenced

-- The second list has those entries of the first whose number is listed, in their order.
pub data Keeps (referenced : List ℤ) : List MatchEntry → List MatchEntry → Type 0 where
  done : Keeps referenced [] []
  keep :
      {es ks : List MatchEntry} (e : MatchEntry)
      → IsListed referenced e.match_id
      → Keeps referenced es ks
      → Keeps referenced (e ∷ es) (e ∷ ks)
  drop :
      {es ks : List MatchEntry} (e : MatchEntry)
      → ¬ IsListed referenced e.match_id
      → Keeps referenced es ks
      → Keeps referenced (e ∷ es) ks

exists_in-Mem :
    (k : ℤ) (referenced : List ℤ) → exists_in (λ r. eq_ℤ r k) referenced ≡ true → Memᴰ k referenced
exists_in-Mem k [] h = cc
exists_in-Mem k (r ∷ rs) h = elim (Bool-cases (eq_ℤ r k)) [
  | inl e ↦ head (sym ((eq_ℤ_iff r k).0 e))
  | inr e ↦ tail (exists_in-Mem k rs (rw e at h))
]

Mem-exists_in :
    (k : ℤ) (referenced : List ℤ) → Memᴰ k referenced → exists_in (λ r. eq_ℤ r k) referenced ≡ true
Mem-exists_in k [] m = elim m [ ]
Mem-exists_in k (r ∷ rs) (head same) = rw ((eq_ℤ_iff r k).1 (sym same)) refl
Mem-exists_in k (r ∷ rs) (tail m) = elim (Bool-cases (eq_ℤ r k)) [
  | inl e ↦ rw e refl
  | inr e ↦ rw e (Mem-exists_in k rs m)
]

is_referenced-IsListed :
    (referenced : List ℤ) (k : ℤ)
    → match_id_is_referenced referenced k ≡ true
    → IsListed referenced k
unfolding match_id_is_referenced
is_referenced-IsListed referenced k h = elim (Bool-cases (is_positive k)) [
  | inl p ↦ (ground (arith, p), exists_in-Mem k referenced (rw p at h))
  | inr p ↦ absurd (ground (arith, p, h))
]

is_referenced-not_IsListed :
    (referenced : List ℤ) (k : ℤ)
    → match_id_is_referenced referenced k ≡ false
    → ¬ IsListed referenced k
unfolding match_id_is_referenced
is_referenced-not_IsListed referenced k h (positive, m) =
    let p : is_positive k ≡ true = ground (arith, positive) in
    let there = Mem-exists_in k referenced m in ground (arith, p, there, h)

referenced_entries-Keeps :
    (referenced : List ℤ) (es : List MatchEntry)
    → Keeps referenced es (referenced_entries referenced es)
referenced_entries-Keeps referenced [] = done
referenced_entries-Keeps referenced (e ∷ es) =
    elim (Bool-cases (match_id_is_referenced referenced e.match_id)) [
      | inl r ↦ rw r (
          keep e (is_referenced-IsListed referenced e.match_id r)
            (referenced_entries-Keeps referenced es))
      | inr r ↦ rw r (
          drop e (is_referenced-not_IsListed referenced e.match_id r)
            (referenced_entries-Keeps referenced es))
    ]

-- Garbage collection keeps exactly the entries whose number is positive and listed, in their order and
-- unchanged, leaves the counter alone, and returns how many entries it removed.
pub gc-Keeps :
    (m : MatchEntryManager) (referenced : List ℤ)
    → let (after, removed) = match_entry_gc m referenced in
      Keeps referenced m.entries after.entries
      × (after.next_match_id ≡ m.next_match_id)
      × (removed ≡ length m.entries - length after.entries)
gc-Keeps m referenced =
    rw (gc_lem m referenced) (referenced_entries-Keeps referenced m.entries, refl, refl)

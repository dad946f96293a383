-- ===== src/Matching/Registry/Rebind.antt =====
-- src/matching/match_entry.c: what one pass of rebinding does to each entry.
use cofi.Prelude.{
  ℕ, ◌<◌, ◌≡◌, ◌⊎◌, refl, ap, ap₂, Bool, false, not, List, [], ◌∷◌, none, some, find_first, All,
  All-find_first, ◌==◌, ==_refl, arith, Bool-cases, Option-cases, inl, inr, map,
}
use cofi.Windows.{WindowInfo}
use cofi.Matching.Registry.{
  MatchEntry, MatchEntryManager, match_entry_matches_window, find_live_window_by_id, rebind,
  reassign_entry, reassign_entries, match_entry_reassign_live_windows,
}
use cofi.Matching.Registry.Invariant.{IsValid, IsBoundRight, HasId}

-- The binding that one pass gives an entry: a live one stays, a dead or missing one goes to the
-- first window that matches, and to none if no window does.
pub settled_binding : List WindowInfo → MatchEntry → ℕ
settled_binding windows e = elim (find_live_window_by_id windows e.bound_x11_id) [
  | some bound ↦ e.bound_x11_id
  | none ↦ elim (find_first (λ w. match_entry_matches_window e w) windows) [
    | some w ↦ w.id
    | none ↦ 0
  ]
]

abbrev pub settled : List WindowInfo → MatchEntry → MatchEntry
settled windows e = record e {
  bound_x11_id = settled_binding windows e;
  assigned = not (settled_binding windows e == 0);
}

reassign_entry-settled :
    (windows : List WindowInfo) (e : MatchEntry)
    → All HasId windows
    → (reassign_entry windows e).0 ≡ settled windows e
unfolding reassign_entry rebind settled_binding find_live_window_by_id
reassign_entry-settled windows e h =
    elim (Option-cases (find_first (λ w. match_entry_matches_window e w) windows)) [
      | inl f ↦ ground arith
      | inr (w, f) ↦
          let live : 0 < w.id =
            All-find_first HasId (λ w. match_entry_matches_window e w) windows h f in
          ground arith
    ]

reassign_entries-settled :
    (windows : List WindowInfo) (es : List MatchEntry)
    → All HasId windows
    → (reassign_entries windows es).0 ≡ map (settled windows) es
unfolding reassign_entries
reassign_entries-settled windows [] h = refl
reassign_entries-settled windows (e ∷ es) h =
    ap₂ ◌∷◌ (reassign_entry-settled windows e h) (reassign_entries-settled windows es h)

-- One pass gives every entry its settled binding and marks it assigned exactly if there is one;
-- order, numbers and patterns stay, and so does the counter. The windows have numbers other than 0.
pub reassign_lem :
    (m : MatchEntryManager) (windows : List WindowInfo)
    → All HasId windows
    → (match_entry_reassign_live_windows m windows).0
      ≡ record m { entries = map (settled windows) m.entries }
unfolding match_entry_reassign_live_windows
reassign_lem m windows h =
    ap (λ es. record m { entries = es }) (reassign_entries-settled windows m.entries h)

unchanged_entry :
    (windows : List WindowInfo) (e : MatchEntry)
    → IsBoundRight e
    → (reassign_entry windows e).1 ≡ false
    → (reassign_entry windows e).0 ≡ e
unfolding reassign_entry rebind find_live_window_by_id
unchanged_entry windows e right h = ground arith

unchanged_entries :
    (windows : List WindowInfo) (es : List MatchEntry)
    → All IsBoundRight es
    → (reassign_entries windows es).1 ≡ false
    → (reassign_entries windows es).0 ≡ es
unfolding reassign_entries
unchanged_entries windows [] rights h = refl
unchanged_entries windows (e ∷ es) rights h =
    ap₂ ◌∷◌ (unchanged_entry windows e rights.0 (ground arith))
      (unchanged_entries windows es rights.1 (ground arith))

-- In a valid registry, a pass that reports no change has changed nothing.
pub reassign_unchanged :
    (m : MatchEntryManager) (windows : List WindowInfo)
    → IsValid m
    → (match_entry_reassign_live_windows m windows).1 ≡ false
    → (match_entry_reassign_live_windows m windows).0 ≡ m
unfolding match_entry_reassign_live_windows
reassign_unchanged m windows v h =
    ap (λ es. record m { entries = es }) (unchanged_entries windows m.entries v.bindings h)

-- A window that a search finds is found by its number too.
find_by_id :
    (test : WindowInfo → Bool) (windows : List WindowInfo) {w : WindowInfo}
    → find_first test windows ≡ some w
    → (v : WindowInfo) × (find_first (λ u. u.id == w.id) windows ≡ some v)
find_by_id test [] h = cc
find_by_id test (u ∷ windows) {w} h = elim (Bool-cases (test u)) [
  | inl t ↦ (u, ground (arith, ==_refl w.id))
  | inr f ↦
      let (v, found) = find_by_id test windows (rw f at h) in
      elim (Bool-cases (u.id == w.id)) [ inl same ↦ (u, rw same) | inr other ↦ (v, rw other found) ]
]

-- A settled entry is bound to a live window, or no window matches it.
settled_cases :
    (windows : List WindowInfo) (e : MatchEntry)
    → All HasId windows
    → ((settled_binding windows e ≡ 0)
        × (find_first (λ w. match_entry_matches_window e w) windows ≡ none))
      ⊎ ((v : WindowInfo) × (find_live_window_by_id windows (settled_binding windows e) ≡ some v))
unfolding settled_binding
settled_cases windows e h = elim (Option-cases (find_live_window_by_id windows e.bound_x11_id)) [
  | inr (b, live) ↦ inr (b, rw (live, settled_binding) live)
  | inl dead ↦ elim (Option-cases (find_first (λ w. match_entry_matches_window e w) windows)) [
    | inl f ↦ inl (rw (dead, f, settled_binding), f)
    | inr (w, f) ↦
        let (v, found) = find_by_id (λ w. match_entry_matches_window e w) windows f in
        let live : 0 < w.id =
          All-find_first HasId (λ w. match_entry_matches_window e w) windows h f in
        inr (v, rw (dead, f, settled_binding) (unfold find_live_window_by_id in (ground arith)))
  ]
]

settled-settled :
    (windows : List WindowInfo) (e : MatchEntry)
    → All HasId windows
    → reassign_entry windows (settled windows e) ≡ (settled windows e, false)
unfolding reassign_entry rebind match_entry_matches_window find_live_window_by_id
settled-settled windows e h = elim (settled_cases windows e h) [
  | inl (unbound, f) ↦ ground arith
  | inr (v, found) ↦ ground arith
]

settled_entries :
    (windows : List WindowInfo) (es : List MatchEntry)
    → All HasId windows
    → reassign_entries windows (map (settled windows) es) ≡ (map (settled windows) es, false)
unfolding reassign_entries
settled_entries windows [] h = refl
settled_entries windows (e ∷ es) h =
    ground (arith, settled-settled windows e h, settled_entries windows es h)

-- A second pass over the same windows, whose numbers are not 0, finds everything in place and reports
-- no change.
pub reassign_twice :
    (m : MatchEntryManager) (windows : List WindowInfo)
    → All HasId windows
    → let m' = (match_entry_reassign_live_windows m windows).0 in
      match_entry_reassign_live_windows m' windows ≡ (m', false)
unfolding match_entry_reassign_live_windows
reassign_twice m windows h =
    rw (reassign_entries-settled windows m.entries h)
      (ap (λ r. (record m { entries = r.0 }, r.1)) (settled_entries windows m.entries h))

-- ===== src/Workspace/Slots/Shown.antt =====
-- The windows that get a slot, told without the tests of the code.
use mathlib.Core.List.{Memᴰ}
use mathlib.Core.List.Memᴰ.{head, tail}
use cofi.Prelude.{
  codes, eq_ℤ_iff, bytes_eq_iff, ◌≤◌, ℕ, ◌-◌, ◌≡◌, ◌≢◌, ◌⊎◌, refl, sym, ap, ◌∙◌, Bool, true, false,
  List, [], ◌∷◌, ◌++◌, map, some, negsuc, if◌then◌else◌, arith, Bool-cases, Option-cases, inl, inr,
}
use cofi.Windows.{WindowInfo}
use cofi.Workspace.Visible.{WindowPosition}
use cofi.Workspace.Largest.{total_area, compute_visible_fraction}
use cofi.Workspace.Slots.{
  min_visible_dim, Server, is_candidate, candidate_of, candidates, shows_enough, visible_loop,
}

-- The window may have a slot: it is on this desktop or on every one, where only normal windows count, it
-- is neither the own window nor hidden or shaded.
abbrev pub MayHaveSlot : Server → ℕ → WindowInfo → Type 0
MayHaveSlot server own win =
    ((win.desktop ≡ server.current_desktop) ⊎ (win.desktop ≡ negsuc 0))
    × ((win.desktop ≢ negsuc 0) ⊎ (win.type ≡ codes "Normal"))
    × (win.id ≢ own)
    × (server.is_hidden win.id ≡ false)
    × (server.is_shaded win.id ≡ false)

-- Enough of a candidate shows among the windows of an array, in all and in one piece.
abbrev pub ShowsAmong :
    (ℕ → ℕ → ℕ → Bool) → Server → ℕ → WindowPosition → List WindowPosition → Type 0
ShowsAmong below server pct c array =
    let m = compute_visible_fraction c server.stacking_order array server.monitor_clips in
    (total_area c ≢ 0)
    × (below m.visible_area (total_area c) pct ≡ false)
    × (below m.largest_area (total_area c) pct ≡ false)
    × (min_visible_dim ≤ m.largest.x2 - m.largest.x1)
    × (min_visible_dim ≤ m.largest.y2 - m.largest.y1)

-- The candidate at the corner of its largest piece.
abbrev pub placed_among : Server → WindowPosition → List WindowPosition → WindowPosition
placed_among server c array =
    let m = compute_visible_fraction c server.stacking_order array server.monitor_clips in
    record c { x = m.largest.x1; y = m.largest.y1 }

-- A window of an array but for its place.
abbrev pub unplaced : WindowPosition → WindowPosition
unplaced c = record c { x = 0; y = 0 }

-- The position shows a candidate of the list, which is measured among candidates that differ from the
-- list at most by their places.
abbrev pub Shows :
    (ℕ → ℕ → ℕ → Bool) → Server → ℕ → List WindowPosition → WindowPosition → WindowPosition → Type 0
Shows below server pct cs c v =
    (array : List WindowPosition) × (map unplaced array ≡ map unplaced cs)
    × ShowsAmong below server pct c array
    × (v ≡ placed_among server c array)

is_candidate-MayHaveSlot :
    (server : Server) (own : ℕ) (win : WindowInfo)
    → is_candidate server own win ≡ true
    → MayHaveSlot server own win
is_candidate-MayHaveSlot server own win h = ground (
  arith,
  h,
  eq_ℤ_iff win.desktop server.current_desktop,
  eq_ℤ_iff win.desktop (negsuc 0),
  bytes_eq_iff win.type (codes "Normal"),
)

shows_enough-ShowsAmong :
    (below : ℕ → ℕ → ℕ → Bool) (server : Server) (pct : ℕ) (c : WindowPosition)
    (array : List WindowPosition)
    → shows_enough below server pct c
        (compute_visible_fraction c server.stacking_order array server.monitor_clips)
      ≡ true
    → ShowsAmong below server pct c array
shows_enough-ShowsAmong below server pct c array h = ground (arith, h)

-- The window that a candidate stands for.
abbrev pub IsOf : Server → ℕ → List WindowInfo → WindowPosition → Type 0
IsOf server own windows c =
    (win : WindowInfo) × Memᴰ win windows
    × MayHaveSlot server own win
    × (candidate_of server win ≡ some c)

candidate_id :
    (server : Server) (win : WindowInfo) {c : WindowPosition}
    → candidate_of server win ≡ some c
    → win.id ≡ c.id
candidate_id server win {c} e = ground (arith, e)

module _ (server : Server) (own : ℕ) where
  first_or_rest :
      (win : WindowInfo) (windows : List WindowInfo) (first c : WindowPosition)
      (rest : List WindowPosition)
      → candidate_of server win ≡ some first
      → is_candidate server own win ≡ true
      → (Memᴰ c rest → IsOf server own windows c)
      → Memᴰ c (first ∷ rest)
      → IsOf server own (win ∷ windows) c
  first_or_rest win windows first c rest e is f (head same) =
      (win, head refl, is_candidate-MayHaveSlot server own win is, e ∙ ap some (sym same))
  first_or_rest win windows first c rest e is f (tail m) =
      let (w, there, may, e') = f m in (w, tail there, may, e')

  pub candidates-IsOf :
      (windows : List WindowInfo) (c : WindowPosition)
      → Memᴰ c (candidates server own windows)
      → IsOf server own windows c
  unfolding candidates
  candidates-IsOf [] c m = elim m [ ]
  candidates-IsOf (win ∷ windows) c m = elim (Bool-cases (is_candidate server own win)) [
    | inl is ↦ elim (Option-cases (candidate_of server win)) [
      | inl none_left ↦
          let (w, there, may, e) = candidates-IsOf windows c (rw (is, none_left) at m) in
          (w, tail there, may, e)
      | inr (first, e) ↦
          first_or_rest win windows first c (candidates server own windows) e is
            (λ m'. candidates-IsOf windows c m') (rw (is, e) at m)
    ]
    | inr refused ↦
        let (w, there, may, e) = candidates-IsOf windows c (rw refused at m) in
        (w, tail there, may, e)
  ]

kept_or_later :
    (b : Bool) (placed v : WindowPosition) (rest : List WindowPosition)
    → Memᴰ v (if b then placed ∷ rest else rest)
    → ((b ≡ true) × (v ≡ placed)) ⊎ Memᴰ v rest
kept_or_later true placed v rest (head same) = inl (refl, same)
kept_or_later true placed v rest (tail m) = inr m
kept_or_later false placed v rest m = inr m

-- A round keeps the array but for the place of its candidate.
unplaced-round :
    (b : Bool) (done cs : List WindowPosition) (c placed : WindowPosition)
    → unplaced placed ≡ unplaced c
    → map unplaced ((if b then done ++ placed ∷ [] else done ++ c ∷ []) ++ cs)
      ≡ map unplaced (done ++ c ∷ cs)
unplaced-round true [] cs c placed same = ap (λ v. v ∷ map unplaced cs) same
unplaced-round false [] cs c placed same = refl
unplaced-round true (d ∷ done) cs c placed same =
    ap (λ vs. unplaced d ∷ vs) (unplaced-round true done cs c placed same)
unplaced-round false (d ∷ done) cs c placed same =
    ap (λ vs. unplaced d ∷ vs) (unplaced-round false done cs c placed same)

pub visible_loop-Shows :
    (below : ℕ → ℕ → ℕ → Bool) (server : Server) (pct : ℕ) (done cs : List WindowPosition)
    (v : WindowPosition)
    → Memᴰ v (visible_loop below server pct done cs)
    → (c : WindowPosition) × Memᴰ c cs × Shows below server pct (done ++ cs) c v
unfolding visible_loop
visible_loop-Shows below server pct done [] v m = elim m [ ]
visible_loop-Shows below server pct done (c ∷ cs) v m =
    let array = done ++ c ∷ cs in
    let measured = compute_visible_fraction c server.stacking_order array server.monitor_clips in
    let placed = placed_among server c array in
    let shown = shows_enough below server pct c measured in
    let done' = if shown then done ++ placed ∷ [] else done ++ c ∷ [] in
    elim (kept_or_later shown placed v (visible_loop below server pct done' cs) m) [
      | inl (enough, same) ↦ (
        c,
        head refl,
        (array, refl, shows_enough-ShowsAmong below server pct c array enough, same),
      )
      | inr later ↦
          let (d, there, (array', kept, enough, is)) =
            visible_loop-Shows below server pct done' cs v later in
          (d, tail there, (array', kept ∙ unplaced-round shown done cs c placed refl, enough, is))
    ]

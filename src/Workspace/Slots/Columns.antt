-- ===== src/Workspace/Slots/Columns.antt =====
-- The columns and rows of sorted windows.
use cofi.Prelude.{
  ℕ, zero, suc, ◌+◌, ◌≤◌, ◌<◌, ◌≡◌, ◌≢◌, refl, true, false, List, [], ◌∷◌, some, get_elem?, ltb,
  if◌then◌else◌, arith, Bool-cases, inl, inr,
}
use cofi.Workspace.Visible.{WindowPosition}
use cofi.Workspace.Slots.{row_threshold, indices_from, assign_indices}

-- The window at a place is the first with its index.
abbrev pub IsFirst : List ℕ → ℕ → ℕ → Type 0
IsFirst indices zero c = Unit
IsFirst indices (suc k) c = get_elem? indices k ≢ some c

module _ (place : WindowPosition → ℕ) where
  -- The index of a window behind one with index `c`, where the first with that index is `a`.
  abbrev pub next_index : WindowPosition → ℕ → WindowPosition → ℕ
  next_index a c b = if ltb (place a + row_threshold) (place b) then c + 1 else c

  step_far :
      (start index : ℕ) (w : WindowPosition) (ws : List WindowPosition)
      → ltb (start + row_threshold) (place w) ≡ true
      → indices_from place start index (w ∷ ws)
        ≡ (index + 1) ∷ indices_from place (place w) (index + 1) ws
  unfolding indices_from
  step_far start index w ws far = rw far refl

  step_near :
      (start index : ℕ) (w : WindowPosition) (ws : List WindowPosition)
      → ltb (start + row_threshold) (place w) ≡ false
      → indices_from place start index (w ∷ ws) ≡ index ∷ indices_from place start index ws
  unfolding indices_from
  step_near start index w ws near = rw near refl

  index-le :
      (start index : ℕ) (ws : List WindowPosition) (i : ℕ) {d : ℕ}
      → get_elem? (indices_from place start index ws) i ≡ some d
      → index ≤ d
  unfolding indices_from
  index-le start index [] i e = cc
  index-le start index (w ∷ ws) zero e = ground (arith, e)
  index-le start index (w ∷ ws) (suc i) e =
      elim (Bool-cases (ltb (start + row_threshold) (place w))) [
        | inl far ↦ let ih = index-le (place w) (index + 1) ws i (rw far at e) in omega (arith, ih)
        | inr near ↦ index-le start index ws i (rw near at e)
      ]

  -- As long as the index is the one at the start, the places are measured from there.
  index_behind :
      (start index : ℕ) (ws : List WindowPosition) (j : ℕ) {b : WindowPosition}
      → get_elem? ws j ≡ some b
      → get_elem? (index ∷ indices_from place start index ws) j ≡ some index
      → get_elem? (indices_from place start index ws) j
        ≡ some (if ltb (start + row_threshold) (place b) then index + 1 else index)
  index_behind start index [] j e k = cc
  index_behind start index (w ∷ ws) zero e k =
      elim (Bool-cases (ltb (start + row_threshold) (place w))) [
        | inl far ↦ rw (step_far start index w ws far) (ground (arith, e, far))
        | inr near ↦ rw (step_near start index w ws near) (ground (arith, e, near))
      ]
  index_behind start index (w ∷ ws) (suc j) {b} e k =
      elim (Bool-cases (ltb (start + row_threshold) (place w))) [
        | inl far ↦ absurd (too_small j (rw (step_far start index w ws far) at k))
        | inr near ↦
            rw (step_near start index w ws near)
              (index_behind start index ws j e (rw (step_near start index w ws near) at k))
      ]
    where
      too_small :
          (j : ℕ)
          → get_elem? ((index + 1) ∷ indices_from place (place w) (index + 1) ws) j ≡ some index
          → ⊥
      too_small zero h = ground (arith, h)
      too_small (suc j) h = omega (arith, index-le (place w) (index + 1) ws j h)

  index_from_first :
      (start index : ℕ) (ws : List WindowPosition) (k j : ℕ) {a b : WindowPosition} {c : ℕ}
      → get_elem? ws k ≡ some a
      → get_elem? ws j ≡ some b
      → get_elem? (indices_from place start index ws) k ≡ some c
      → get_elem? (index ∷ indices_from place start index ws) k ≢ some c
      → k < j
      → get_elem? (index ∷ indices_from place start index ws) j ≡ some c
      → get_elem? (indices_from place start index ws) j ≡ some (next_index a c b)
  index_from_first start index [] k j e e' i first lt i' = cc
  index_from_first start index (w ∷ ws) zero zero e e' i first lt i' = absurd (omega (arith, lt))
  index_from_first start index (w ∷ ws) (suc k) zero e e' i first lt i' = absurd (omega (arith, lt))
  index_from_first start index (w ∷ ws) zero (suc j) {a} {b} {c} e e' i first lt i' =
      elim (Bool-cases (ltb (start + row_threshold) (place w))) [
        | inl far ↦
            let same : w ≡ a = ground (arith, e) in
            let index_is : index + 1 ≡ c = ground (arith, i, step_far start index w ws far) in
            rw (step_far start index w ws far, ← same, ← index_is)
              (index_behind (place w) (index + 1) ws j e'
                (rw (step_far start index w ws far, ← index_is) at i'))
        | inr near ↦ absurd (first (rw (step_near start index w ws near) at i))
      ]
  index_from_first start index (w ∷ ws) (suc k) (suc j) e e' i first lt i' =
      elim (Bool-cases (ltb (start + row_threshold) (place w))) [
        | inl far ↦
            let step = step_far start index w ws far in
            rw step (
              index_from_first (place w) (index + 1) ws k j e e' (rw step at i)
                (λ h. first (rw step h)) (omega (arith, lt)) (rw step at i'))
        | inr near ↦
            let step = step_near start index w ws near in
            rw step (
              index_from_first start index ws k j e e' (rw step at i) (λ h. first (rw step h))
                (omega (arith, lt)) (rw step at i'))
      ]

  -- The first window has index 0. The window behind one with index `c` has the same index, unless its
  -- place is more than 100 pixels behind that of the first window with index `c`: then it has the next
  -- one. So a column or row is measured from its first window, and not from gap to gap.
  pub assign_indices_lem :
      (first : WindowPosition) (ws : List WindowPosition) (k j : ℕ) (a b : WindowPosition) (c : ℕ)
      → let windows = first ∷ ws in
        let indices = assign_indices place windows in
        get_elem? windows k ≡ some a
        → get_elem? windows (suc j) ≡ some b
        → get_elem? indices k ≡ some c
        → IsFirst indices k c
        → k ≤ j
        → get_elem? indices j ≡ some c
        → (get_elem? indices 0 ≡ some 0) × (get_elem? indices (suc j) ≡ some (next_index a c b))
  unfolding assign_indices
  assign_indices_lem first ws zero j a b c e e' i is_first le i' =
      let same : first ≡ a = ground (arith, e) in
      let index_is : 0 ≡ c = ground (arith, i) in
      (refl, rw (← same, ← index_is) (index_behind (place first) 0 ws j e' (rw (← index_is) at i')))
  assign_indices_lem first ws (suc k) j a b c e e' i is_first le i' =
      (refl, index_from_first (place first) 0 ws k j e e' i is_first (omega (arith, le)) i')

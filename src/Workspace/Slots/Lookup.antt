-- ===== src/Workspace/Slots/Lookup.antt =====
-- What a slot holds after an assignment.
use mathlib.Core.List.{Memᴰ}
use mathlib.Core.List.Memᴰ.{head, tail}
use cofi.Prelude.{
  get_elem?, ◌<◌, ℕ, zero, suc, ◌-◌, ◌≡◌, ◌≢◌, refl, sym, ap, subst, ◌∙◌, Bool, true, false, ◌||◌,
  List, [], ◌∷◌, map, some, ℤ, pos, negsuc, length, take, get_or, leb, ltb, if◌then◌else◌, arith,
  Bool-cases, inl, inr,
}
use cofi.Windows.{WindowInfo}
use cofi.Workspace.Visible.{WindowPosition}
use cofi.Workspace.Slots.{
  max_workspace_slots, Server, candidates, visible_loop, assign_indices, zip, before_by,
  before_in_group, sort_by, threshold_pct, assign_workspace_slots, WorkspaceSlotManager,
  get_workspace_slot_window, sort_by_column, sort_by_row,
}
use cofi.Workspace.Slots.Shown.{IsOf, Shows, candidates-IsOf, visible_loop-Shows}

zip-Mem :
    (ws : List WindowPosition) (is : List ℕ) (p : WindowPosition × ℕ)
    → Memᴰ p (zip ws is)
    → Memᴰ p.0 ws
zip-Mem [] is p m = elim m [ ]
zip-Mem (w ∷ ws) [] p m = elim m [ ]
zip-Mem (w ∷ ws) (i ∷ is) p (head same) = head (ap (λ q. q.0) same)
zip-Mem (w ∷ ws) (i ∷ is) p (tail m) = tail (zip-Mem ws is p m)

map-Mem {ℓ κ} :
    {A : Type ℓ} {B : Type κ} (f : A → B) (xs : List A) (y : B)
    → Memᴰ y (map f xs)
    → (x : A) × Memᴰ x xs × (f x ≡ y)
map-Mem f [] y m = elim m [ ]
map-Mem f (x ∷ xs) y (head same) = (x, head refl, sym same)
map-Mem f (x ∷ xs) y (tail m) = let (z, there, e) = map-Mem f xs y m in (z, tail there, e)

get_elem?-Mem {ℓ} : {A : Type ℓ} (xs : List A) (i : ℕ) {x : A} → get_elem? xs i ≡ some x → Memᴰ x xs
get_elem?-Mem [] i e = cc
get_elem?-Mem (y ∷ xs) zero e = head (ground (arith, e))
get_elem?-Mem (y ∷ xs) (suc i) e = tail (get_elem?-Mem xs i e)

-- What an array of the first windows holds at an index, where it is not 0.
held_at :
    (n : ℕ) (ws : List WindowPosition) (i : ℕ)
    → get_or (map (λ w. w.id) (take n ws)) i 0 ≢ 0
    → (w : WindowPosition) × (get_elem? ws i ≡ some w)
      × (w.id ≡ get_or (map (λ w. w.id) (take n ws)) i 0)
      × (i < n)
held_at zero ws i h = absurd (h refl)
held_at (suc n) [] i h = absurd (h refl)
held_at (suc n) (w ∷ ws) zero h = (w, refl, refl, omega arith)
held_at (suc n) (w ∷ ws) (suc i) h =
    let (v, there, is, lt) = held_at n ws i h in (v, there, is, omega (arith, lt))

-- The index behind a slot that is assigned.
slot_index :
    (manager : WorkspaceSlotManager) (slot : ℤ)
    → get_workspace_slot_window manager slot ≢ 0
    → (i : ℕ) × (slot ≡ pos (suc i))
      × (get_or manager.slots i 0 ≡ get_workspace_slot_window manager slot)
slot_index manager (negsuc n) h = absurd (h refl)
slot_index manager (pos zero) h = absurd (h refl)
slot_index manager (pos (suc i)) h =
    elim (Bool-cases (ltb (suc i) 1 || ltb max_workspace_slots (suc i))) [
      | inl out ↦ absurd (h (rw out refl))
      | inr within ↦ elim (Bool-cases (leb (length manager.slots) (suc i - 1))) [
        | inl beyond ↦ absurd (h (rw (within, beyond) refl))
        | inr held ↦ (i, refl, rw (within, held) (ap (λ n. get_or manager.slots n 0) (omega arith)))
      ]
    ]

-- The order by columns or rows.
abbrev pub order_by :
    (sort_windows : (WindowPosition → WindowPosition → Bool)
      → List WindowPosition
      → List WindowPosition)
    (sort_indexed : (WindowPosition × ℕ → WindowPosition × ℕ → Bool)
      → List (WindowPosition × ℕ)
      → List (WindowPosition × ℕ))
    → Bool
    → List WindowPosition
    → List WindowPosition
order_by sort_windows sort_indexed by_columns visible =
    if by_columns
    then sort_by_column sort_windows sort_indexed visible
    else sort_by_row sort_windows sort_indexed visible

module _
    (sort_windows : (WindowPosition → WindowPosition → Bool)
      → List WindowPosition
      → List WindowPosition)
    (sort_indexed : (WindowPosition × ℕ → WindowPosition × ℕ → Bool)
      → List (WindowPosition × ℕ)
      → List (WindowPosition × ℕ))
    (windows_kept : (before : WindowPosition → WindowPosition → Bool) (xs : List WindowPosition)
        (x : WindowPosition)
      → Memᴰ x (sort_windows before xs)
      → Memᴰ x xs)
    (indexed_kept : (before : WindowPosition × ℕ → WindowPosition × ℕ → Bool)
        (xs : List (WindowPosition × ℕ)) (x : WindowPosition × ℕ)
      → Memᴰ x (sort_indexed before xs)
      → Memᴰ x xs) where
  sort_by-Mem :
      (first second : WindowPosition → ℕ) (windows : List WindowPosition) (w : WindowPosition)
      → Memᴰ w (sort_by sort_windows sort_indexed first second windows)
      → Memᴰ w windows
  unfolding sort_by
  sort_by-Mem first second windows w m =
      let sorted = sort_windows (before_by first) windows in
      let pairs = zip sorted (assign_indices first sorted) in
      let (p, m', e) = map-Mem (λ t. t.0) (sort_indexed (before_in_group second) pairs) w m in
      windows_kept (before_by first) windows w (
        subst (λ v. Memᴰ v sorted) e
          (zip-Mem sorted (assign_indices first sorted) p
            (indexed_kept (before_in_group second) pairs p m')))

  from_sorted :
      (by_columns : Bool) (visible : List WindowPosition) (w : WindowPosition)
      → Memᴰ w (
          if by_columns
          then sort_by_column sort_windows sort_indexed visible
          else sort_by_row sort_windows sort_indexed visible)
      → Memᴰ w visible
  unfolding sort_by_column sort_by_row
  from_sorted true visible w m = sort_by-Mem (λ v. v.x) (λ v. v.y) visible w m
  from_sorted false visible w m = sort_by-Mem (λ v. v.y) (λ v. v.x) visible w m

  -- Where `qsort` adds nothing: a slot that is assigned is one of the first nine, and holds the number of
  -- the window at its place in the order by columns or rows. That is a window of the list, on this
  -- desktop or, if it is a normal one, on every desktop, and neither the own window nor hidden or
  -- shaded. Enough of it shows, in all and in one piece of at least 8 by 8 pixels, among the
  -- candidates, which are those of the list but for their places.
  pub get_workspace_slot_window-Shows :
      (below : ℕ → ℕ → ℕ → Bool) (server : Server) (own_window_id : ℕ) (pct : ℤ) (by_columns : Bool)
      (windows : List WindowInfo) (slot : ℤ)
      → let manager =
          assign_workspace_slots below sort_windows sort_indexed server own_window_id pct by_columns
            windows in
        let cs = candidates server own_window_id windows in
        get_workspace_slot_window manager slot ≢ 0
        → (i : ℕ) × (v : WindowPosition) × (c : WindowPosition) × (slot ≡ pos (suc i))
          × (i < max_workspace_slots)
          × (get_elem?
                (order_by sort_windows sort_indexed by_columns
                  (visible_loop below server (threshold_pct pct) [] cs))
                i
              ≡ some v)
          × (v.id ≡ get_workspace_slot_window manager slot)
          × IsOf server own_window_id windows c
          × Shows below server (threshold_pct pct) cs c v
  unfolding assign_workspace_slots sort_by_column sort_by_row
  get_workspace_slot_window-Shows below server own_window_id pct by_columns windows slot h =
      let manager =
        assign_workspace_slots below sort_windows sort_indexed server own_window_id pct by_columns
          windows in
      let cs = candidates server own_window_id windows in
      let visible = visible_loop below server (threshold_pct pct) [] cs in
      let (i, slot_is, held) = slot_index manager slot h in
      let (v, there, v_is, lt) =
        held_at max_workspace_slots (order_by sort_windows sort_indexed by_columns visible) i
          (λ e. h (sym held ∙ e)) in
      let shown =
        from_sorted by_columns visible v
          (get_elem?-Mem (order_by sort_windows sort_indexed by_columns visible) i there) in
      let (c, listed, shows) = visible_loop-Shows below server (threshold_pct pct) [] cs v shown in
      (
        i,
        v,
        c,
        slot_is,
        lt,
        there,
        v_is ∙ held,
        candidates-IsOf server own_window_id windows c listed,
        shows,
      )

-- ===== src/Workspace/Visible/Windows.antt =====
-- The occluders of a window are what the windows above it cover.
use cofi.Prelude.{
  ℕ, ◌+◌, ◌≤◌, ◌≡◌, refl, sym, ap, ◌∙◌, Bool, true, false, not, ◌&&◌, List, [], ◌∷◌, some, length,
  take_all, All, count_if, exists_in, ◌==◌, if◌then◌else◌, arith, Bool-cases, inl, inr,
}
use cofi.Workspace.Rects.{Rect, between, inside, has_point}
use cofi.Workspace.Rects.Difference.{one_if, between_both, and_swap, no_point}
use cofi.Workspace.Visible.{
  max_occluders, WindowPosition, outer_rect, get_stack_position, is_above, occluder_of,
  all_occluders, occluders, visible_region, buffer_full,
}
use cofi.Workspace.Visible.Region.{points-visible_region, points-visible_region-le}

-- The other window is above the window, and the point is in it.
abbrev covers : WindowPosition → ℕ → List ℕ → ℕ → ℕ → WindowPosition → Bool
covers win position stack x y other =
    not (other.id == win.id) && (is_above position stack other.id && inside x y (outer_rect other))

-- The reference: the point is in the window and in no other window above it.
abbrev pub shows : WindowPosition → ℕ → List ℕ → List WindowPosition → ℕ → ℕ → Bool
shows win position stack all x y =
    inside x y (outer_rect win) && not (exists_in (covers win position stack x y) all)

abbrev HavePoints : List Rect → Type 0
HavePoints os = All (λ o. has_point o ≡ true) os

put_HavePoints :
    (a b : Bool) (r : Rect) (rest : List Rect)
    → HavePoints rest
    → HavePoints (if a then rest else if b then rest else if has_point r then r ∷ rest else rest)
put_HavePoints true b r rest h = h
put_HavePoints false true r rest h = h
put_HavePoints false false r rest h = elim (Bool-cases (has_point r)) [
  | inl some_point ↦ rw some_point (some_point, h)
  | inr no_point ↦ rw no_point h
]

all_occluders-HavePoints :
    (win : WindowPosition) (position : ℕ) (stack : List ℕ) (all : List WindowPosition)
    → HavePoints (all_occluders win position stack all)
unfolding all_occluders
all_occluders-HavePoints win position stack [] = tt
all_occluders-HavePoints win position stack (other ∷ all) =
    put_HavePoints (other.id == win.id) (not (is_above position stack other.id))
      (occluder_of win other) (all_occluders win position stack all)
      (all_occluders-HavePoints win position stack all)

inside-occluder_of :
    (win other : WindowPosition) (x y : ℕ)
    → inside x y (occluder_of win other)
      ≡ (inside x y (outer_rect win) && inside x y (outer_rect other))
inside-occluder_of win other x y =
    rw
      (
        between_both win.x (win.x + win.w) other.x (other.x + other.w) x,
        between_both win.y (win.y + win.h) other.y (other.y + other.h) y,
      )
      (and_swap (between win.x (win.x + win.w) x) (between other.x (other.x + other.w) x)
        (between win.y (win.y + win.h) y) (between other.y (other.y + other.h) y))

inside-has_point : (x y : ℕ) (r : Rect) → has_point r ≡ false → inside x y r ≡ false
inside-has_point x y r h = ground (arith, h)

exists-put :
    (same above : Bool) (win other : WindowPosition) (rest : List Rect) (x y : ℕ)
    → inside x y (outer_rect win) ≡ true
    → exists_in (inside x y) (
        if same
        then rest
        else if not above
        then rest
        else if has_point (occluder_of win other)
        then occluder_of win other ∷ rest
        else rest)
      ≡ (if not same && (above && inside x y (outer_rect other))
          then true
          else exists_in (inside x y) rest)
exists-put true above win other rest x y h = refl
exists-put false false win other rest x y h = refl
exists-put false true win other rest x y h =
    let covered : inside x y (occluder_of win other) ≡ inside x y (outer_rect other) =
      inside-occluder_of win other x y ∙ rw h refl in
    elim (Bool-cases (has_point (occluder_of win other))) [
      | inl some_point ↦
          rw some_point (ap (λ b. if b then true else exists_in (inside x y) rest) covered)
      | inr empty ↦ rw empty (
          ap (λ b. if b then true else exists_in (inside x y) rest)
            (sym (inside-has_point x y (occluder_of win other) empty) ∙ covered))
    ]

-- In the window, an occluder has a point if and only if a window above it has.
exists-all_occluders :
    (win : WindowPosition) (position : ℕ) (stack : List ℕ) (all : List WindowPosition) (x y : ℕ)
    → inside x y (outer_rect win) ≡ true
    → exists_in (inside x y) (all_occluders win position stack all)
      ≡ exists_in (covers win position stack x y) all
unfolding all_occluders
exists-all_occluders win position stack [] x y h = refl
exists-all_occluders win position stack (other ∷ all) x y h =
    exists-put (other.id == win.id) (is_above position stack other.id) win other
      (all_occluders win position stack all) x y h
    ∙ ap (λ b. if covers win position stack x y other then true else b)
        (exists-all_occluders win position stack all x y h)

occluders_given :
    (win : WindowPosition) (stack : List ℕ) (all : List WindowPosition) {position : ℕ}
    → get_stack_position win.id stack ≡ some position
    → length (all_occluders win position stack all) ≤ max_occluders
    → occluders win stack all ≡ all_occluders win position stack all
unfolding occluders
occluders_given win stack all {position} e b =
    rw (e, occluders) (take_all 32 (all_occluders win position stack all) b)

shown : (w c d : Bool) → (w ≡ true → c ≡ d) → (if c then 0 else one_if w + 0) ≡ one_if (w && not d)
shown true c d h = rw (h refl) (at d)
  where
    at : (d : Bool) → (if d then 0 else 1) ≡ one_if (not d)
    at true = refl
    at false = refl
shown false true d h = refl
shown false false d h = refl

-- A window in the stack, with at most 32 occluders and while no round fills the buffer: each point that
-- shows of the window, being in it and in no other window above it, is in exactly one piece of the
-- visible region, and no other point is in one.
pub visible_region-shows :
    (win : WindowPosition) (position : ℕ) (stack : List ℕ) (all : List WindowPosition) (x y : ℕ)
    → get_stack_position win.id stack ≡ some position
    → length (all_occluders win position stack all) ≤ max_occluders
    → buffer_full (occluders win stack all) (outer_rect win ∷ []) ≡ false
    → count_if (inside x y) (visible_region (occluders win stack all) (outer_rect win ∷ []))
      ≡ one_if (shows win position stack all x y)
visible_region-shows win position stack all x y e b f =
    let os = all_occluders win position stack all in
    let given = occluders_given win stack all e b in
    let counted =
      points-visible_region x y os (outer_rect win ∷ [])
        (all_occluders-HavePoints win position stack all) (rw given at f) in
    rw given (
      counted
      ∙ shown (inside x y (outer_rect win)) (exists_in (inside x y) os)
          (exists_in (covers win position stack x y) all)
          (exists-all_occluders win position stack all x y))

-- With the same bound on the occluders, but whatever the buffer holds, the pieces of the visible region
-- do not overlap, and a point of one of them is in the window and in no other window above it.
pub visible_region-shows-le :
    (win : WindowPosition) (position : ℕ) (stack : List ℕ) (all : List WindowPosition) (x y : ℕ)
    → get_stack_position win.id stack ≡ some position
    → length (all_occluders win position stack all) ≤ max_occluders
    → count_if (inside x y) (visible_region (occluders win stack all) (outer_rect win ∷ []))
      ≤ one_if (shows win position stack all x y)
visible_region-shows-le win position stack all x y e b =
    let os = all_occluders win position stack all in
    rw (occluders_given win stack all e b) (
      omega (
        arith,
        points-visible_region-le x y os (outer_rect win ∷ [])
            (all_occluders-HavePoints win position stack all),
        shown (inside x y (outer_rect win)) (exists_in (inside x y) os)
            (exists_in (covers win position stack x y) all)
            (exists-all_occluders win position stack all x y),
      ))

-- ===== src/Workspace/Visible/Region.antt =====
-- The visible region has each point of the window that no occluder has, once.
use cofi.Prelude.{
  ℕ, zero, suc, ◌+◌, ◌-◌, ◌≤◌, ◌<◌, ◌≡◌, refl, ap, ◌∙◌, Bool, true, false, not, ◌&&◌, ◌||◌, List,
  [], ◌∷◌, ◌++◌, length, length-append, take, All, count_if, exists_in, leb, if◌then◌else◌, arith,
}
use cofi.Workspace.Rects.{Rect, rect_subtract, inside, has_point}
use cofi.Workspace.Rects.Difference.{one_if, count-rect_subtract}
use cofi.Workspace.Visible.{max_visible, split_all, visible_region, buffer_full}

count-append :
    (p : Rect → Bool) (xs ys : List Rect) → count_if p (xs ++ ys) ≡ count_if p xs + count_if p ys
count-append p [] ys = omega arith
count-append p (x ∷ xs) ys = omega (arith, count-append p xs ys)

count-take : (p : Rect → Bool) (n : ℕ) (xs : List Rect) → count_if p (take n xs) ≤ count_if p xs
count-take p zero xs = omega arith
count-take p (suc n) [] = omega arith
count-take p (suc n) (x ∷ xs) = omega (arith, count-take p n xs)

take_short : (n : ℕ) (xs : List Rect) → length (take n xs) < n → take n xs ≡ xs
take_short zero xs h = absurd (omega arith)
take_short (suc n) [] h = refl
take_short (suc n) (x ∷ xs) h = ap (λ t. x ∷ t) (take_short n xs (omega (arith, h)))

-- The points of a list of rectangles outside an occluder.
abbrev outside : Bool → ℕ → ℕ
outside covered n = if covered then 0 else n

outside_add :
    (v covered : Bool) (n : ℕ)
    → one_if (v && not covered) + outside covered n ≡ outside covered (one_if v + n)
outside_add v covered n = ground arith

module _ (x y : ℕ) where
  abbrev points : List Rect → ℕ
  points rs = count_if (inside x y) rs

  points-split_all :
      (room : ℕ) (o : Rect) (vs : List Rect)
      → has_point o ≡ true
      → length (split_all room o vs) < room
      → points (split_all room o vs) ≡ outside (inside x y o) (points vs)
  unfolding split_all
  points-split_all room o [] h b = ground arith
  points-split_all room o (v ∷ vs) h b =
      let split = take room (rect_subtract v o) in
      let rest = split_all (room - length split) o vs in
      let both = length-append split rest in
      let all : split ≡ rect_subtract v o =
        take_short room (rect_subtract v o) (omega (arith, b, both)) in
      count-append (inside x y) split rest
      ∙ ap (λ n. n + points rest) (ap points all ∙ count-rect_subtract v o x y h)
      ∙ ap (λ n. one_if (inside x y v && not (inside x y o)) + n)
          (points-split_all (room - length split) o vs h (omega (arith, b, both)))
      ∙ outside_add (inside x y v) (inside x y o) (points vs)

  points-split_all-le :
      (room : ℕ) (o : Rect) (vs : List Rect)
      → has_point o ≡ true
      → points (split_all room o vs) ≤ outside (inside x y o) (points vs)
  unfolding split_all
  points-split_all-le room o [] h = ground arith
  points-split_all-le room o (v ∷ vs) h =
      let split = take room (rect_subtract v o) in
      let rest = split_all (room - length split) o vs in
      omega (
        arith,
        count-append (inside x y) split rest,
        count-take (inside x y) room (rect_subtract v o),
        count-rect_subtract v o x y h,
        points-split_all-le (room - length split) o vs h,
        outside_add (inside x y v) (inside x y o) (points vs),
      )

  outside_twice : (p q : Bool) (n : ℕ) → outside q (outside p n) ≡ outside (if p then true else q) n
  outside_twice p q n = ground arith

  outside_mono : (covered : Bool) (m n : ℕ) → m ≤ n → outside covered m ≤ outside covered n
  outside_mono covered m n h = ground (arith, h)

  not_full : (p q : Bool) → (p || q) ≡ false → (p ≡ false) × (q ≡ false)
  not_full p q h = ground (arith, h)

  room_left : (n m : ℕ) → leb n m ≡ false → m < n
  room_left n m h = ground (arith, h)

  -- While no round fills the buffer, each point is in as many pieces of the visible region as it was in
  -- rectangles before, if no occluder has it, and in none if one has.
  pub points-visible_region :
      (os vs : List Rect)
      → All (λ o. has_point o ≡ true) os
      → buffer_full os vs ≡ false
      → points (visible_region os vs) ≡ outside (exists_in (inside x y) os) (points vs)
  unfolding visible_region buffer_full
  points-visible_region [] vs h f = refl
  points-visible_region (o ∷ os) vs h f =
      let next = split_all max_visible o vs in
      let (room, rest) = not_full (leb max_visible (length next)) (buffer_full os next) f in
      points-visible_region os next h.1 rest
      ∙ ap (outside (exists_in (inside x y) os))
          (points-split_all max_visible o vs h.0 (room_left max_visible (length next) room))
      ∙ outside_twice (inside x y o) (exists_in (inside x y) os) (points vs)

  -- Whatever the buffer holds, no point is in more pieces than that.
  pub points-visible_region-le :
      (os vs : List Rect)
      → All (λ o. has_point o ≡ true) os
      → points (visible_region os vs) ≤ outside (exists_in (inside x y) os) (points vs)
  unfolding visible_region
  points-visible_region-le [] vs h = omega arith
  points-visible_region-le (o ∷ os) vs h =
      let next = split_all max_visible o vs in
      let covered = exists_in (inside x y) os in
      omega (
        arith,
        points-visible_region-le os next h.1,
        outside_mono covered (points next) (outside (inside x y o) (points vs))
            (points-split_all-le max_visible o vs h.0),
        outside_twice (inside x y o) covered (points vs),
      )

-- ===== src/Workspace/Rects/Difference.antt =====
-- The rectangles that are left are the points of the first outside the second, each once.
use cofi.Prelude.{
  ℕ, ◌+◌, ◌≡◌, refl, sym, ap, ◌∙◌, Bool, true, false, not, ◌&&◌, ◌||◌, List, [], count_if, leb, ltb,
  if◌then◌else◌, arith, Bool-cases, inl, inr,
}
use cofi.Workspace.Rects.{
  Rect, rect, larger, smaller, rect_intersect, put_strip, rect_subtract, between, inside, has_point,
}

-- A test as a number.
abbrev pub one_if : Bool → ℕ
one_if b = if b then 1 else 0

pub between_both :
    (a1 a2 b1 b2 x : ℕ)
    → between (larger a1 b1) (smaller a2 b2) x ≡ (between a1 a2 x && between b1 b2 x)
between_both a1 a2 b1 b2 x = ground arith

between_beside :
    (a1 a2 b1 b2 x : ℕ)
    → leb b2 a1 ≡ false
    → leb a2 b1 ≡ false
    → ltb b1 b2 ≡ true
    → one_if (between a1 b1 x) + one_if (between b2 a2 x)
      ≡ one_if (between a1 a2 x && not (between b1 b2 x))
between_beside a1 a2 b1 b2 x h k l = ground (arith, h, k, l)

between_apart :
    (a1 a2 b1 b2 x : ℕ)
    → (leb b2 a1 || leb a2 b1) ≡ true
    → (between a1 a2 x && between b1 b2 x) ≡ false
between_apart a1 a2 b1 b2 x h = ground (arith, h)

between_empty : (lo hi x : ℕ) → ltb lo hi ≡ false → between lo hi x ≡ false
between_empty lo hi x h = ground (arith, h)

-- One of the two axes rules the point out.
either_axis :
    (p q ax bx ay by' : Bool)
    → (p || q) ≡ true
    → (p ≡ true → (ax && bx) ≡ false)
    → (q ≡ true → (ay && by') ≡ false)
    → ((ax && ay) && (bx && by')) ≡ false
either_axis true q ax bx ay by' h k l = ground (arith, k refl)
either_axis false true ax bx ay by' h k l = ground (arith, l refl)
either_axis false false ax bx ay by' h k l = absurd (ground (arith, h))

pub and_swap : (a b c d : Bool) → ((a && b) && (c && d)) ≡ ((a && c) && (b && d))
and_swap a b c d = ground arith

pub no_point : (x y : ℕ) → (between 0 0 x && between 0 0 y) ≡ false
no_point x y = ground arith

axis_empty :
    (a1 a2 b1 b2 x : ℕ)
    → leb (smaller a2 b2) (larger a1 b1) ≡ true
    → (between a1 a2 x && between b1 b2 x) ≡ false
axis_empty a1 a2 b1 b2 x h = ground (arith, h)

pub inside-rect_intersect :
    (a b : Rect) (x y : ℕ) → inside x y (rect_intersect a b) ≡ (inside x y a && inside x y b)
unfolding rect_intersect
inside-rect_intersect a b x y =
    let empty_x = leb (smaller a.x2 b.x2) (larger a.x1 b.x1) in
    let empty_y = leb (smaller a.y2 b.y2) (larger a.y1 b.y1) in
    elim (Bool-cases (empty_x || empty_y)) [
      | inl empty ↦
          rw (empty, no_point x y)
            (sym (
              either_axis empty_x empty_y (between a.x1 a.x2 x) (between b.x1 b.x2 x)
                (between a.y1 a.y2 y) (between b.y1 b.y2 y) empty (axis_empty a.x1 a.x2 b.x1 b.x2 x)
                (axis_empty a.y1 a.y2 b.y1 b.y2 y)))
      | inr some_point ↦
          rw (some_point, between_both a.x1 a.x2 b.x1 b.x2 x, between_both a.y1 a.y2 b.y1 b.y2 y)
            (and_swap (between a.x1 a.x2 x) (between b.x1 b.x2 x) (between a.y1 a.y2 y)
              (between b.y1 b.y2 y))
    ]

-- The shares of the four strips.
four_shares :
    (ax bx left right ay by' top bottom : Bool)
    → one_if left + one_if right ≡ one_if (ax && not bx)
    → one_if top + one_if bottom ≡ one_if (ay && not by')
    → one_if (left && ay)
        + (one_if (right && ay)
            + (one_if ((bx && ax) && top) + (one_if ((bx && ax) && bottom) + 0)))
      ≡ one_if ((ax && ay) && not (bx && by'))
four_shares ax bx left right ay by' top bottom h k = ground (arith, h, k)

count-put_strip :
    (p : Rect → Bool) (t : Bool) (r : Rect) (rs : List Rect)
    → (t ≡ false → p r ≡ false)
    → count_if p (put_strip t r rs) ≡ one_if (p r) + count_if p rs
count-put_strip p true r rs h = refl
count-put_strip p false r rs h = rw (h refl) (omega arith)

alone : (p q : Bool) → (p && q) ≡ false → one_if p + 0 ≡ one_if (p && not q)
alone p q h = ground (arith, h)

no_width : (lo hi x : ℕ) (q : Bool) → ltb lo hi ≡ false → (between lo hi x && q) ≡ false
no_width lo hi x q h = rw (between_empty lo hi x h) refl

no_height : (p : Bool) (lo hi y : ℕ) → ltb lo hi ≡ false → (p && between lo hi y) ≡ false
no_height p lo hi y h = rw (between_empty lo hi y h) (and_false p)
  where
    and_false : (p : Bool) → (p && false) ≡ false
    and_false p = ground arith

none_of :
    (p q r s : Bool)
    → ((p || q) || (r || s)) ≡ false
    → (p ≡ false) × (q ≡ false) × (r ≡ false) × (s ≡ false)
none_of p q r s h = ground (arith, h)

both_of : (p q : Bool) → (p && q) ≡ true → (p ≡ true) × (q ≡ true)
both_of p q h = ground (arith, h)

count-overlap :
    (a b : Rect) (x y : ℕ)
    → ((leb b.x2 a.x1 || leb a.x2 b.x1) || (leb b.y2 a.y1 || leb a.y2 b.y1)) ≡ false
    → has_point b ≡ true
    → count_if (inside x y) (
        put_strip (ltb a.x1 b.x1) (rect a.x1 a.y1 b.x1 a.y2) (
          put_strip (ltb b.x2 a.x2) (rect b.x2 a.y1 a.x2 a.y2) (
            put_strip (ltb a.y1 b.y1) (rect (larger b.x1 a.x1) a.y1 (smaller b.x2 a.x2) b.y1) (
              put_strip
                (ltb b.y2 a.y2)
                (rect (larger b.x1 a.x1) b.y2 (smaller b.x2 a.x2) a.y2)
                []))))
      ≡ one_if (inside x y a && not (inside x y b))
count-overlap a b x y overlap h =
    let (o1, o2, o3, o4) =
      none_of (leb b.x2 a.x1) (leb a.x2 b.x1) (leb b.y2 a.y1) (leb a.y2 b.y1) overlap in
    let (wide, high) = both_of (ltb b.x1 b.x2) (ltb b.y1 b.y2) h in
    let ay = between a.y1 a.y2 y in
    let mid = between (larger b.x1 a.x1) (smaller b.x2 a.x2) x in
    let p = inside x y in
    let left = rect a.x1 a.y1 b.x1 a.y2 in
    let right = rect b.x2 a.y1 a.x2 a.y2 in
    let top = rect (larger b.x1 a.x1) a.y1 (smaller b.x2 a.x2) b.y1 in
    let bottom = rect (larger b.x1 a.x1) b.y2 (smaller b.x2 a.x2) a.y2 in
    let last = put_strip (ltb b.y2 a.y2) bottom [] in
    let lower = put_strip (ltb a.y1 b.y1) top last in
    count-put_strip p (ltb a.x1 b.x1) left (put_strip (ltb b.x2 a.x2) right lower)
      (no_width a.x1 b.x1 x ay)
    ∙ ap (λ n. one_if (p left) + n)
        (count-put_strip p (ltb b.x2 a.x2) right lower (no_width b.x2 a.x2 x ay)
          ∙ ap (λ n. one_if (p right) + n)
              (count-put_strip p (ltb a.y1 b.y1) top last (no_height mid a.y1 b.y1 y)
                ∙ ap (λ n. one_if (p top) + n)
                    (count-put_strip p (ltb b.y2 a.y2) bottom [] (no_height mid b.y2 a.y2 y))))
    ∙ rw (between_both b.x1 b.x2 a.x1 a.x2 x) (
        four_shares (between a.x1 a.x2 x) (between b.x1 b.x2 x) (between a.x1 b.x1 x)
          (between b.x2 a.x2 x) ay (between b.y1 b.y2 y) (between a.y1 b.y1 y) (between b.y2 a.y2 y)
          (between_beside a.x1 a.x2 b.x1 b.x2 x o1 o2 wide)
          (between_beside a.y1 a.y2 b.y1 b.y2 y o3 o4 high))

-- Taking a rectangle that has a point away from another leaves each point of the other that is outside
-- the rectangle in exactly one piece, and every other point in none.
pub count-rect_subtract :
    (a b : Rect) (x y : ℕ)
    → has_point b ≡ true
    → count_if (inside x y) (rect_subtract a b) ≡ one_if (inside x y a && not (inside x y b))
unfolding rect_subtract
count-rect_subtract a b x y h =
    let apart_x = leb b.x2 a.x1 || leb a.x2 b.x1 in
    let apart_y = leb b.y2 a.y1 || leb a.y2 b.y1 in
    elim (Bool-cases (apart_x || apart_y)) [
      | inl apart ↦ rw apart (
          alone (inside x y a) (inside x y b) (
            either_axis apart_x apart_y (between a.x1 a.x2 x) (between b.x1 b.x2 x)
              (between a.y1 a.y2 y) (between b.y1 b.y2 y) apart
              (between_apart a.x1 a.x2 b.x1 b.x2 x) (between_apart a.y1 a.y2 b.y1 b.y2 y)))
      | inr overlap ↦ rw overlap (count-overlap a b x y overlap h)
    ]

-- ===== src/Workspace/Rects.antt =====
-- Rectangles of the screen, src/harpoon/workspace_slots.c. A coordinate stands as its distance from
-- the least `int`, which keeps the order and the differences: the code compares coordinates, adds
-- sizes to them, and takes the difference of the greater and the lesser. Where the code writes an
-- empty rectangle at 0, it stands at the least `int`: only that it is empty is read.
pub mod Difference
use cofi.Prelude.{
  ℕ, ◌-◌, ◌*◌, Bool, true, false, ◌&&◌, ◌||◌, List, [], ◌∷◌, leb, ltb, if◌then◌else◌,
}

pub record Rect : Type 0 where
  pub x1 : ℕ
  pub y1 : ℕ
  pub x2 : ℕ
  pub y2 : ℕ

abbrev pub rect : ℕ → ℕ → ℕ → ℕ → Rect
rect x1 y1 x2 y2 = record { x1 = x1; y1 = y1; x2 = x2; y2 = y2 }

abbrev pub larger : ℕ → ℕ → ℕ
larger a b = if ltb b a then a else b

abbrev pub smaller : ℕ → ℕ → ℕ
smaller a b = if ltb a b then a else b

unfoldable pub rect_intersect : Rect → Rect → Rect
rect_intersect a b =
    let x1 = larger a.x1 b.x1 in
    let y1 = larger a.y1 b.y1 in
    let x2 = smaller a.x2 b.x2 in
    let y2 = smaller a.y2 b.y2 in if leb x2 x1 || leb y2 y1 then rect 0 0 0 0 else rect x1 y1 x2 y2

abbrev pub rect_area : Rect → ℕ
rect_area r = let w = r.x2 - r.x1 in let h = r.y2 - r.y1 in if ltb 0 w && ltb 0 h then w * h else 0

-- `out[n++] = r`, if the test holds.
abbrev pub put_strip : Bool → Rect → List Rect → List Rect
put_strip b r rest = if b then r ∷ rest else rest

-- The left, right, top and bottom strip of `a` beside `b`.
unfoldable pub rect_subtract : Rect → Rect → List Rect
rect_subtract a b =
    if (leb b.x2 a.x1 || leb a.x2 b.x1) || (leb b.y2 a.y1 || leb a.y2 b.y1)
    then a ∷ []
    else put_strip (ltb a.x1 b.x1) (rect a.x1 a.y1 b.x1 a.y2) (
        put_strip (ltb b.x2 a.x2) (rect b.x2 a.y1 a.x2 a.y2) (
          put_strip (ltb a.y1 b.y1) (rect (larger b.x1 a.x1) a.y1 (smaller b.x2 a.x2) b.y1)
            (put_strip (ltb b.y2 a.y2) (rect (larger b.x1 a.x1) b.y2 (smaller b.x2 a.x2) a.y2) [])))

abbrev pub between : ℕ → ℕ → ℕ → Bool
between lo hi x = leb lo x && ltb x hi

-- The point is in the rectangle, whose right and lower edge do not belong to it.
abbrev pub inside : ℕ → ℕ → Rect → Bool
inside x y r = between r.x1 r.x2 x && between r.y1 r.y2 y

-- The rectangle has a point.
abbrev pub has_point : Rect → Bool
has_point r = ltb r.x1 r.x2 && ltb r.y1 r.y2

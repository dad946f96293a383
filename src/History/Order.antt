-- ===== src/History/Order.antt =====
-- src/core/history/history.c: the order of the history.
use mathlib.Core.List.{append-nil, append_assoc}
use cofi.Prelude.{
  negsuc, eq_ℤ, not, ◌&&◌, bytes_eq, codes, ltb, if◌then◌else◌, Bool-cases, inl, inr, length-append,
  ℕ, ℤ, ◌+◌, ◌≤◌, ◌≡◌, refl, sym, ap, ◌∙◌, Bool, true, List, [], ◌∷◌, ◌++◌, length, keep_if,
  count_if, count_if-append, arith,
}
use cofi.Windows.{WindowInfo}
use cofi.Matching.Registry.{max_windows}
use cofi.History.{
  Classes, no_windows, put_within, put_window, partition_from, put_all, rebuild,
  partition_and_reorder,
}

abbrev on_every_desktop : WindowInfo → Bool
on_every_desktop w = eq_ℤ w.desktop (negsuc 0)

abbrev is_normal : WindowInfo → Bool
is_normal w = bytes_eq w.type (codes "Normal")

abbrev normal_here : ℤ → WindowInfo → Bool
normal_here desktop w = not (on_every_desktop w) && (is_normal w && eq_ℤ w.desktop desktop)

abbrev normal_elsewhere : ℤ → WindowInfo → Bool
normal_elsewhere desktop w =
    not (on_every_desktop w) && (is_normal w && not (eq_ℤ w.desktop desktop))

abbrev special_here : ℤ → WindowInfo → Bool
special_here desktop w = not (on_every_desktop w) && (not (is_normal w) && eq_ℤ w.desktop desktop)

abbrev special_elsewhere : ℤ → WindowInfo → Bool
special_elsewhere desktop w =
    not (on_every_desktop w) && (not (is_normal w) && not (eq_ℤ w.desktop desktop))

-- The windows of the five classes, one class after the other.
abbrev pub by_class : ℤ → List WindowInfo → List WindowInfo
by_class desktop ws =
    keep_if (normal_here desktop) ws
    ++ (keep_if (normal_elsewhere desktop) ws
        ++ (keep_if (special_here desktop) ws
            ++ (keep_if (special_elsewhere desktop) ws ++ keep_if on_every_desktop ws)))

abbrev sum_by_class : (WindowInfo → Bool) → ℤ → List WindowInfo → ℕ
sum_by_class p desktop ws =
    count_if p (keep_if (normal_here desktop) ws)
    + (count_if p (keep_if (normal_elsewhere desktop) ws)
        + (count_if p (keep_if (special_here desktop) ws)
            + (count_if p (keep_if (special_elsewhere desktop) ws)
                + count_if p (keep_if on_every_desktop ws))))

count-sum_by_class :
    (p : WindowInfo → Bool) (desktop : ℤ) (ws : List WindowInfo)
    → sum_by_class p desktop ws ≡ count_if p ws
count-sum_by_class p desktop [] = refl
count-sum_by_class p desktop (w ∷ ws) = ground (arith, count-sum_by_class p desktop ws)

count-by_class :
    (p : WindowInfo → Bool) (desktop : ℤ) (ws : List WindowInfo)
    → count_if p (by_class desktop ws) ≡ count_if p ws
count-by_class p desktop ws = simp (count_if-append) (count-sum_by_class p desktop ws)

lengths-by_class :
    (desktop : ℤ) (ws : List WindowInfo)
    → length (keep_if (normal_here desktop) ws)
        + (length (keep_if (normal_elsewhere desktop) ws)
            + (length (keep_if (special_here desktop) ws)
                + (length (keep_if (special_elsewhere desktop) ws)
                    + length (keep_if on_every_desktop ws))))
      ≡ length ws
lengths-by_class desktop [] = refl
lengths-by_class desktop (w ∷ ws) = ground (arith, lengths-by_class desktop ws)

-- One of the five arrays, told by its field and by the test for its windows.
module _ (desktop : ℤ) (field : Classes → List WindowInfo) (test : WindowInfo → Bool)
    (puts : (w : WindowInfo) (cs : Classes)
      → field (put_window desktop w cs)
        ≡ (if test w then put_within (field cs) w else field cs)) where
  field_of_partition :
      (ws : List WindowInfo) (cs : Classes)
      → length (field cs) + length ws ≤ max_windows
      → field (partition_from desktop ws cs) ≡ field cs ++ keep_if test ws
  unfolding partition_from
  field_of_partition [] cs fits = sym (append-nil (field cs))
  field_of_partition (w ∷ ws) cs fits =
      let ih = field_of_partition ws (put_window desktop w cs) in
      elim (Bool-cases (test w)) [
        | inl t ↦
            let room : ltb (length (field cs)) max_windows ≡ true = ground (arith, fits) in
            let put : field (put_window desktop w cs) ≡ field cs ++ (w ∷ []) =
              puts w cs ∙ rw (t, room) refl in
            ih (rw put (omega (arith, fits, length-append (field cs) (w ∷ []))))
            ∙ rw (put, t) (append_assoc (field cs) (w ∷ []) (keep_if test ws))
        | inr f ↦
            let put : field (put_window desktop w cs) ≡ field cs = puts w cs ∙ rw f refl in
            ih (rw put (omega (arith, fits))) ∙ rw (put, f) refl
      ]

put_all-append :
    (history ws : List WindowInfo)
    → length history + length ws ≤ max_windows
    → put_all history ws ≡ history ++ ws
unfolding put_all
put_all-append history [] fits = sym (append-nil history)
put_all-append history (w ∷ ws) fits =
    let room : ltb (length history) max_windows ≡ true = ground (arith, fits) in
    rw (room, put_all)
      (put_all-append (history ++ (w ∷ [])) ws (omega (arith, fits, length-append history (w ∷ [])))
        ∙ append_assoc history (w ∷ []) ws)

rebuild-append :
    (history : List WindowInfo) (cs : Classes)
    → length history
        + (length cs.current_normal
            + (length cs.other_normal
                + (length cs.current_special
                    + (length cs.other_special + length cs.sticky_windows))))
      ≤ max_windows
    → rebuild history cs
      ≡ history
        ++ (cs.current_normal
            ++ (cs.other_normal ++ (cs.current_special ++ (cs.other_special ++ cs.sticky_windows))))
unfolding rebuild
rebuild-append history cs fits =
    let h1 = history ++ cs.current_normal in
    let h2 = h1 ++ cs.other_normal in
    let h3 = h2 ++ cs.current_special in
    let h4 = h3 ++ cs.other_special in
    let l1 = length-append history cs.current_normal in
    let l2 = length-append h1 cs.other_normal in
    let l3 = length-append h2 cs.current_special in
    let l4 = length-append h3 cs.other_special in
    rw
      (
        put_all-append history cs.current_normal (omega (arith, fits)),
        put_all-append h1 cs.other_normal (omega (arith, fits, l1)),
        put_all-append h2 cs.current_special (omega (arith, fits, l1, l2)),
        put_all-append h3 cs.other_special (omega (arith, fits, l1, l2, l3)),
        put_all-append h4 cs.sticky_windows (omega (arith, fits, l1, l2, l3, l4)),
      )
      (simp (append_assoc) refl)

abbrev classes_of : ℤ → List WindowInfo → Classes
classes_of desktop ws = record {
  current_normal = keep_if (normal_here desktop) ws;
  other_normal = keep_if (normal_elsewhere desktop) ws;
  current_special = keep_if (special_here desktop) ws;
  other_special = keep_if (special_elsewhere desktop) ws;
  sticky_windows = keep_if on_every_desktop ws;
}

partition_from-classes :
    (desktop : ℤ) (ws : List WindowInfo)
    → length ws ≤ max_windows
    → partition_from desktop ws no_windows ≡ classes_of desktop ws
unfolding put_window
partition_from-classes desktop ws fits =
    classes_eq
      (field_of_partition desktop (λ cs. cs.current_normal) (normal_here desktop)
        (λ w cs. ground arith) ws no_windows (omega (arith, fits)))
      (field_of_partition desktop (λ cs. cs.other_normal) (normal_elsewhere desktop)
        (λ w cs. ground arith) ws no_windows (omega (arith, fits)))
      (field_of_partition desktop (λ cs. cs.current_special) (special_here desktop)
        (λ w cs. ground arith) ws no_windows (omega (arith, fits)))
      (field_of_partition desktop (λ cs. cs.other_special) (special_elsewhere desktop)
        (λ w cs. ground arith) ws no_windows (omega (arith, fits)))
      (field_of_partition desktop (λ cs. cs.sticky_windows) on_every_desktop (λ w cs. ground arith)
        ws no_windows (omega (arith, fits)))
  where
    classes_eq :
        {cs ds : Classes}
        → cs.current_normal ≡ ds.current_normal
        → cs.other_normal ≡ ds.other_normal
        → cs.current_special ≡ ds.current_special
        → cs.other_special ≡ ds.other_special
        → cs.sticky_windows ≡ ds.sticky_windows
        → cs ≡ ds
    classes_eq a b c d e = cc

-- The first two windows stay in front, and behind them stand the others by class: normal windows of
-- this desktop, normal ones of other desktops, special ones of this desktop and of others, and those
-- on every desktop, each class in the order it had. The history has at most 256 windows.
pub partition_lem :
    (desktop : ℤ) (first second : WindowInfo) (rest : List WindowInfo)
    → length rest + 2 ≤ max_windows
    → partition_and_reorder desktop (first ∷ second ∷ rest) ≡ first ∷ second ∷ by_class desktop rest
unfolding partition_and_reorder
partition_lem desktop first second [] h = refl
partition_lem desktop first second (third ∷ rest) h =
    rw (partition_from-classes desktop (third ∷ rest) (omega (arith, h))) (
      rebuild-append (first ∷ second ∷ []) (classes_of desktop (third ∷ rest))
        (omega (arith, h, lengths-by_class desktop (third ∷ rest))))

partition_none : (desktop : ℤ) → partition_and_reorder desktop [] ≡ []
unfolding partition_and_reorder
partition_none desktop = refl

partition_one : (desktop : ℤ) (w : WindowInfo) → partition_and_reorder desktop (w ∷ []) ≡ w ∷ []
unfolding partition_and_reorder
partition_one desktop w = refl

-- Reordering loses no window and adds none, if there are at most 256: whatever is counted, as many
-- windows pass as before.
pub count-partition :
    (p : WindowInfo → Bool) (desktop : ℤ) (ws : List WindowInfo)
    → length ws ≤ max_windows
    → count_if p (partition_and_reorder desktop ws) ≡ count_if p ws
count-partition p desktop [] h = ap (count_if p) (partition_none desktop)
count-partition p desktop (w ∷ []) h = ap (count_if p) (partition_one desktop w)
count-partition p desktop (w ∷ v ∷ ws) h =
    ap (count_if p) (partition_lem desktop w v ws (omega arith))
    ∙ omega (arith, count-by_class p desktop ws)

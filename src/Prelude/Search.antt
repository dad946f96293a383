-- ===== src/Prelude/Search.antt =====
-- Searches in a list after an element is replaced, added or taken out.
use Prim.Native.Nat.{ℕ, zero, suc, ◌<◌}
use mathlib.Core.Path.{◌≡◌, refl, ap, ◌∙◌}
use mathlib.Core.Logic.{◌≢◌, inl, inr}
use mathlib.Core.Bool.{Bool, true, false}
use mathlib.Core.List.{List, [], ◌∷◌, ◌++◌}
use mathlib.Core.Option.{none, some}
use native.Mathlib.Omega.{arith}
use cofi.Prelude.Tests.{if◌then◌else◌, Bool-cases, Option-cases}
use cofi.Prelude.Lists.{All, length, get_elem?, set, remove_at, find_index, find_first}

module _ {ℓ} {A : Type ℓ} where
  pub set-snoc : (xs : List A) (x v : A) → set (xs ++ (x ∷ [])) (length xs) v ≡ xs ++ (v ∷ [])
  set-snoc [] x v = refl
  set-snoc (y ∷ xs) x v = ap (λ t. y ∷ t) (set-snoc xs x v)

  pub find_index-lt :
      (p : A → Bool) (xs : List A) {n : ℕ} → find_index p xs ≡ some n → n < length xs
  unfolding find_index
  find_index-lt p [] h = cc
  find_index-lt p (x ∷ xs) {n} h = elim (Bool-cases (p x)) [
    | inl t ↦ ground arith
    | inr f ↦ elim (Option-cases (find_index p xs)) [
      | inl e ↦ ground arith
      | inr (m, e) ↦ ground (arith, find_index-lt p xs e)
    ]
  ]

  -- A search by index and one by element find the same.
  pub find_first-find_index :
      (p : A → Bool) (xs : List A)
      → find_first p xs ≡ (elim (find_index p xs) [ none ↦ none | some i ↦ get_elem? xs i ])
  unfolding find_index
  find_first-find_index p [] = refl
  find_first-find_index p (x ∷ xs) = elim (Bool-cases (p x)) [
    | inl t ↦ ground arith
    | inr f ↦ elim (Option-cases (find_index p xs)) [
      | inl e ↦ ground (arith, find_first-find_index p xs)
      | inr (m, e) ↦ ground (arith, find_first-find_index p xs)
    ]
  ]

  pub find_first_of_find_index :
      (p : A → Bool) (xs : List A) {n : ℕ}
      → find_index p xs ≡ some n
      → (x : A) × (find_first p xs ≡ some x) × (p x ≡ true) × (get_elem? xs n ≡ some x)
  unfolding find_index
  find_first_of_find_index p [] h = cc
  find_first_of_find_index p (x ∷ xs) {n} h = elim (Bool-cases (p x)) [
    | inl t ↦ (x, ground arith, t, ground arith)
    | inr f ↦ elim (Option-cases (find_index p xs)) [
      | inl e ↦ absurd (ground arith)
      | inr (m, e) ↦
          let (y, found, py, got) = find_first_of_find_index p xs e in
          (y, ground arith, py, ground arith)
    ]
  ]

  pub find_first_of_none :
      (p : A → Bool) (xs : List A) → find_index p xs ≡ none → find_first p xs ≡ none
  find_first_of_none p xs h = find_first-find_index p xs ∙ (rw h)

  pub find_first-set_self :
      (p : A → Bool) (xs : List A) (v : A) {n : ℕ}
      → find_index p xs ≡ some n
      → p v ≡ true
      → find_first p (set xs n v) ≡ some v
  unfolding find_index
  find_first-set_self p [] v h t = cc
  find_first-set_self p (x ∷ xs) v {n} h t = elim (Bool-cases (p x)) [
    | inl px ↦ ground arith
    | inr f ↦ elim (Option-cases (find_index p xs)) [
      | inl e ↦ ground arith
      | inr (m, e) ↦ ground (arith, find_first-set_self p xs v e t)
    ]
  ]

  pub find_first-set_ne :
      (p q : A → Bool) (xs : List A) (v : A) {n : ℕ}
      → find_index p xs ≡ some n
      → ((x : A) → p x ≡ true → q x ≡ false)
      → q v ≡ false
      → find_first q (set xs n v) ≡ find_first q xs
  unfolding find_index
  find_first-set_ne p q [] v h apart f = refl
  find_first-set_ne p q (x ∷ xs) v {n} h apart qv = elim (Bool-cases (p x)) [
    | inl px ↦ ground (arith, apart x px)
    | inr f ↦ elim (Option-cases (find_index p xs)) [
      | inl e ↦ ground arith
      | inr (m, e) ↦ ground (arith, find_first-set_ne p q xs v e apart qv)
    ]
  ]

  pub find_first-snoc :
      (p : A → Bool) (xs : List A) (v : A)
      → find_first p (xs ++ (v ∷ []))
        ≡ (elim (find_first p xs) [ some x ↦ some x | none ↦ if p v then some v else none ])
  find_first-snoc p [] v = refl
  find_first-snoc p (x ∷ xs) v = ground (arith, find_first-snoc p xs v)

  pub find_index-snoc :
      (p : A → Bool) (xs : List A) (v : A)
      → find_index p xs ≡ none
      → p v ≡ true
      → find_index p (xs ++ (v ∷ [])) ≡ some (length xs)
  unfolding find_index
  find_index-snoc p [] v h t = rw t
  find_index-snoc p (x ∷ xs) v h t = elim (Option-cases (find_index p xs)) [
    | inl e ↦ ground (arith, find_index-snoc p xs v e t)
    | inr (m, e) ↦ absurd (ground arith)
  ]

  pub find_first-remove_at_ne :
      (p q : A → Bool) (xs : List A) {n : ℕ}
      → find_index p xs ≡ some n
      → ((x : A) → p x ≡ true → q x ≡ false)
      → find_first q (remove_at xs n) ≡ find_first q xs
  unfolding find_index
  find_first-remove_at_ne p q [] h apart = refl
  find_first-remove_at_ne p q (x ∷ xs) {n} h apart = elim (Bool-cases (p x)) [
    | inl px ↦ ground (arith, apart x px)
    | inr f ↦ elim (Option-cases (find_index p xs)) [
      | inl e ↦ ground arith
      | inr (m, e) ↦ ground (arith, find_first-remove_at_ne p q xs e apart)
    ]
  ]

  pub find_first_of_All :
      (p : A → Bool) (xs : List A) → All (λ x. p x ≡ false) xs → find_first p xs ≡ none
  find_first_of_All p [] h = refl
  find_first_of_All p (x ∷ xs) h = ground (arith, h.0, find_first_of_All p xs h.1)

  pub get_elem?-set_self :
      (xs : List A) (i : ℕ) (v : A) → i < length xs → get_elem? (set xs i v) i ≡ some v
  get_elem?-set_self [] i v h = absurd (omega arith)
  get_elem?-set_self (x ∷ xs) zero v h = refl
  get_elem?-set_self (x ∷ xs) (suc i) v h = get_elem?-set_self xs i v (omega arith)

  pub get_elem?-set_ne :
      (xs : List A) (i j : ℕ) (v : A) → i ≢ j → get_elem? (set xs i v) j ≡ get_elem? xs j
  get_elem?-set_ne [] i j v h = refl
  get_elem?-set_ne (x ∷ xs) zero zero v h = absurd (h refl)
  get_elem?-set_ne (x ∷ xs) zero (suc j) v h = refl
  get_elem?-set_ne (x ∷ xs) (suc i) zero v h = refl
  get_elem?-set_ne (x ∷ xs) (suc i) (suc j) v h = get_elem?-set_ne xs i j v (λ e. h (ap suc e))

  pub get_elem?-some : (xs : List A) (i : ℕ) → i < length xs → (x : A) × (get_elem? xs i ≡ some x)
  get_elem?-some [] i h = absurd (omega arith)
  get_elem?-some (x ∷ xs) zero h = (x, refl)
  get_elem?-some (x ∷ xs) (suc i) h = get_elem?-some xs i (omega arith)

  -- Lists of one length that agree at every index are equal.
  pub list_ext :
      (xs ys : List A)
      → length xs ≡ length ys
      → ((i : ℕ) → i < length xs → get_elem? xs i ≡ get_elem? ys i)
      → xs ≡ ys
  list_ext [] [] l h = refl
  list_ext [] (y ∷ ys) l h = absurd (omega arith)
  list_ext (x ∷ xs) [] l h = absurd (omega arith)
  list_ext (x ∷ xs) (y ∷ ys) l h = ground (
    arith,
    h 0 (omega arith),
    list_ext xs ys (omega arith) (λ (i : ℕ) (lt : i < length xs). h (suc i) (omega arith)),
  )

-- ===== src/Prelude/Predicates.antt =====
-- Predicates on all the elements of a list, and lists without repetition.
use Prim.Native.Nat.{ℕ, zero, suc}
use mathlib.Core.Path.{◌≡◌, refl, sym, ap}
use mathlib.Core.Logic.{◌≢◌, inl, inr}
use mathlib.Core.Bool.{Bool}
use mathlib.Core.List.{List, [], ◌∷◌, ◌++◌, map}
use mathlib.Core.Option.{none, some}
use native.Mathlib.Omega.{arith}
use cofi.Prelude.Tests.{Bool-cases}
use cofi.Prelude.Lists.{All, length, get_elem?, remove_at, find_first}

module _ {ℓ} {A : Type ℓ} where
  abbrev pub Distinct : List A → Type ℓ
  Distinct [] = Unit
  Distinct (x ∷ xs) = All (λ y. y ≢ x) xs × Distinct xs

module _ {ℓ κ} {A : Type ℓ} (P : A → Type κ) where
  pub All-append : (xs ys : List A) → All P xs → All P ys → All P (xs ++ ys)
  All-append [] ys h k = k
  All-append (x ∷ xs) ys h k = (h.0, All-append xs ys h.1 k)

  pub All-remove_at : (xs : List A) (i : ℕ) → All P xs → All P (remove_at xs i)
  All-remove_at [] i h = tt
  All-remove_at (x ∷ xs) zero h = h.1
  All-remove_at (x ∷ xs) (suc i) h = (h.0, All-remove_at xs i h.1)

  pub All-get_elem? : (xs : List A) (i : ℕ) {x : A} → All P xs → get_elem? xs i ≡ some x → P x
  All-get_elem? [] i h e = cc
  All-get_elem? (y ∷ xs) zero {x} h e = subst_at (ground arith) h.0
    where
      subst_at : y ≡ x → P y → P x
      subst_at p q = rw p at q
  All-get_elem? (y ∷ xs) (suc i) h e = All-get_elem? xs i h.1 e

  pub All-find_first :
      (test : A → Bool) (xs : List A) {x : A} → All P xs → find_first test xs ≡ some x → P x
  All-find_first test [] h e = cc
  All-find_first test (y ∷ xs) {x} h e = elim (Bool-cases (test y)) [
    | inl t ↦ subst_at (ground arith) h.0
    | inr f ↦ All-find_first test xs h.1 (rw f at e)
  ]
    where
      subst_at : y ≡ x → P y → P x
      subst_at p q = rw p at q

  pub All-mono {ι} : (Q : A → Type ι) (xs : List A) → ((x : A) → P x → Q x) → All P xs → All Q xs
  All-mono Q [] f h = tt
  All-mono Q (x ∷ xs) f h = (f x h.0, All-mono Q xs f h.1)

module _ {ℓ} {A : Type ℓ} where
  pub Distinct-remove_at : (xs : List A) (i : ℕ) → Distinct xs → Distinct (remove_at xs i)
  Distinct-remove_at [] i h = tt
  Distinct-remove_at (x ∷ xs) zero h = h.1
  Distinct-remove_at (x ∷ xs) (suc i) h =
      (All-remove_at (λ y. y ≢ x) xs i h.0, Distinct-remove_at xs i h.1)

  pub Distinct-snoc :
      (xs : List A) (x : A) → Distinct xs → All (λ y. y ≢ x) xs → Distinct (xs ++ (x ∷ []))
  Distinct-snoc [] x h k = (tt, tt)
  Distinct-snoc (y ∷ xs) x h k =
      (All-append (λ z. z ≢ y) xs (x ∷ []) h.0 ((λ e. k.0 (sym e)), tt), Distinct-snoc xs x h.1 k.1)

module _ {ℓ κ} {A : Type ℓ} {B : Type κ} where
  pub map-remove_at :
      (f : A → B) (xs : List A) (i : ℕ) → map f (remove_at xs i) ≡ remove_at (map f xs) i
  map-remove_at f [] i = refl
  map-remove_at f (x ∷ xs) zero = refl
  map-remove_at f (x ∷ xs) (suc i) = ap (λ t. f x ∷ t) (map-remove_at f xs i)

module _ {ℓ} {A : Type ℓ} where
  pub remove_at-append :
      (xs : List A) (y : A) (ys : List A) → remove_at (xs ++ (y ∷ ys)) (length xs) ≡ xs ++ ys
  remove_at-append [] y ys = refl
  remove_at-append (x ∷ xs) y ys = ap (λ t. x ∷ t) (remove_at-append xs y ys)

  pub get_elem?-append :
      (xs : List A) (y : A) (ys : List A) → get_elem? (xs ++ (y ∷ ys)) (length xs) ≡ some y
  get_elem?-append [] y ys = refl
  get_elem?-append (x ∷ xs) y ys = get_elem?-append xs y ys

  pub get_elem?-past : (xs : List A) → get_elem? xs (length xs) ≡ none
  get_elem?-past [] = refl
  get_elem?-past (x ∷ xs) = get_elem?-past xs

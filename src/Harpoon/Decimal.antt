-- ===== src/Harpoon/Decimal.antt =====
-- The numbers in slot payloads: what `snprintf` prints for "%d", and what `strtol` in base 10 and the
-- cast to `int` read.
use native.Mathlib.Nat.{pow-suc}
use cofi.Prelude.{
  ℕ, zero, suc, ℤ, pos, negsuc, ◌+◌, ◌-◌, ◌*◌, ◌/◌, ◌%◌, ◌^◌, ◌≤◌, ◌<◌, ◌≡◌, refl, ◌∙◌, Bool, true,
  false, ◌&&◌, ◌||◌, [], ◌∷◌, ◌++◌, Bytes, All, All-append, is_empty, length, length-append, ltb,
  leb, ◌==◌, if◌then◌else◌, arith, Bool-cases, inl, inr,
}

abbrev is_digit : ℕ → Bool
is_digit c = leb 48 c && leb c 57

decimal_rounds : ℕ → ℕ → Bytes
decimal_rounds zero n = []
decimal_rounds (suc f) n =
    let higher = decimal_rounds f (n / 10) in
    if ltb n 10 then (48 + n) ∷ [] else higher ++ ((48 + n % 10) ∷ [])

decimal : ℕ → Bytes
unfolding decimal_rounds
decimal n = decimal_rounds (suc n) n

-- "%d"
pub print_int : ℤ → Bytes
unfolding decimal
print_int (pos n) = decimal n
print_int (negsuc n) = 45 ∷ decimal (n + 1)

parse_digits : ℕ → Bytes → ℕ
parse_digits a [] = a
parse_digits a (c ∷ cs) = if is_digit c then parse_digits (a * 10 + (c - 48)) cs else a

-- `isspace` in the C locale
abbrev is_c_space : ℕ → Bool
is_c_space c = c == 32 || (leb 9 c && leb c 13)

-- The result of `strtol` stays within 64 bits.
abbrev clamp_long : ℕ → ℕ → ℕ
clamp_long limit n = if ltb limit n then limit else n

parse_signed : Bytes → ℤ
unfolding parse_digits
parse_signed [] = pos 0
parse_signed (c ∷ cs) =
    if c == 45
    then (let n = clamp_long (2 ^ 63) (parse_digits 0 cs) in
        if n == 0 then pos 0 else negsuc (n - 1))
    else if c == 43
    then pos (clamp_long (2 ^ 63 - 1) (parse_digits 0 cs))
    else pos (clamp_long (2 ^ 63 - 1) (parse_digits 0 (c ∷ cs)))

strtol : Bytes → ℤ
unfolding parse_signed
strtol [] = pos 0
strtol (c ∷ cs) = if is_c_space c then strtol cs else parse_signed (c ∷ cs)

-- `(int)` of a `long`: the low 32 bits.
cast_int : ℤ → ℤ
cast_int (pos n) = let m = n % 2 ^ 32 in if ltb m (2 ^ 31) then pos m else negsuc (2 ^ 32 - 1 - m)
cast_int (negsuc n) =
    let m = n % 2 ^ 32 in if ltb m (2 ^ 31) then negsuc m else pos (2 ^ 32 - 1 - m)

pub read_int : Bytes → ℤ
unfolding strtol cast_int
read_int s = cast_int (strtol s)

abbrev IsDigit : ℕ → Type 0
IsDigit c = is_digit c ≡ true

decimal_rounds-digits : (f n : ℕ) → All IsDigit (decimal_rounds f n)
unfolding decimal_rounds
decimal_rounds-digits zero n = tt
decimal_rounds-digits (suc f) n = elim (Bool-cases (ltb n 10)) [
  | inl small ↦ rw (small, decimal_rounds) (ground arith, tt)
  | inr large ↦
      rw (large, decimal_rounds)
        (All-append IsDigit (decimal_rounds f (n / 10)) ((48 + n % 10) ∷ [])
          (decimal_rounds-digits f (n / 10)) (ground arith, tt))
]

parse_digits-append :
    (a : ℕ) (xs ys : Bytes)
    → All IsDigit xs
    → parse_digits a (xs ++ ys) ≡ parse_digits (parse_digits a xs) ys
unfolding parse_digits
parse_digits-append a [] ys h = refl
parse_digits-append a (x ∷ xs) ys h = rw h.0 (parse_digits-append (a * 10 + (x - 48)) xs ys h.1)

parse_digits-decimal : (f n : ℕ) → n < f → parse_digits 0 (decimal_rounds f n) ≡ n
unfolding decimal_rounds parse_digits
parse_digits-decimal zero n h = absurd (omega arith)
parse_digits-decimal (suc f) n h = elim (Bool-cases (ltb n 10)) [
  | inl small ↦ ground arith
  | inr large ↦
      rw (large, decimal_rounds)
        (parse_digits-append 0 (decimal_rounds f (n / 10)) ((48 + n % 10) ∷ [])
            (decimal_rounds-digits f (n / 10))
          ∙ ground (arith, parse_digits-decimal f (n / 10) (ground arith)))
]

strtol-digits :
    (xs : Bytes) → All IsDigit xs → strtol xs ≡ pos (clamp_long (2 ^ 63 - 1) (parse_digits 0 xs))
unfolding strtol parse_digits
strtol-digits [] h = refl
strtol-digits (c ∷ cs) h = ground (arith, h.0)

-- A number that is at least 0 and fits an `int` is read back from its print.
pub read_int-print_int : (n : ℕ) → n < 2 ^ 31 → read_int (print_int (pos n)) ≡ pos n
unfolding read_int print_int decimal
read_int-print_int n h =
    rw
      (
        strtol-digits (decimal_rounds (suc n) n) (decimal_rounds-digits (suc n) n),
        parse_digits-decimal (suc n) n (omega arith),
      )
      (ground arith)

decimal_rounds-length : (k f n : ℕ) → n < 10 ^ suc k → length (decimal_rounds f n) ≤ suc k
unfolding decimal_rounds
decimal_rounds-length k zero n h = omega arith
decimal_rounds-length zero (suc f) n h = ground arith
decimal_rounds-length (suc k) (suc f) n h = elim (Bool-cases (ltb n 10)) [
  | inl small ↦ rw (small, decimal_rounds) (omega arith)
  | inr large ↦
      rw (large, decimal_rounds)
        (omega (
          arith,
          length-append (decimal_rounds f (n / 10)) ((48 + n % 10) ∷ []),
          decimal_rounds-length k f (n / 10) (below_tenth (rw pow-suc at h)),
        ))
]
  where
    below_tenth : n < 10 ^ suc k * 10 → n / 10 < 10 ^ suc k
    below_tenth b = omega arith

snoc_not_empty : (xs : Bytes) (x : ℕ) → is_empty (xs ++ (x ∷ [])) ≡ false
snoc_not_empty [] x = refl
snoc_not_empty (y ∷ xs) x = refl

-- The print of an `int` that is at least 0 is short and not empty.
pub print_int-short :
    (n : ℕ)
    → n < 2 ^ 31
    → (length (print_int (pos n)) ≤ 10) × (is_empty (print_int (pos n)) ≡ false)
unfolding print_int decimal
print_int-short n h = (decimal_rounds-length 9 (suc n) n (omega arith), not_empty)
  where
    not_empty : is_empty (decimal_rounds (suc n) n) ≡ false
    not_empty = elim (Bool-cases (ltb n 10)) [
      | inl small ↦ rw (small, decimal_rounds)
      | inr large ↦
          rw (large, decimal_rounds) (snoc_not_empty (decimal_rounds n (n / 10)) (48 + n % 10))
    ]

-- ===== src/Commands/Parser/Compact.antt =====
-- A token that a name and its argument share is split behind the longest name that fits.
use cofi.Prelude.{
  ℕ, ◌≤◌, ◌<◌, ◌≡◌, ◌⊎◌, refl, sym, ap, subst, true, false, ◌&&◌, List, [], ◌∷◌, none, some, Bytes,
  length, drop, copy_to, ltb, arith, Bool-cases, Option-cases, inl, inr,
}
use mathlib.Core.List.{Memᴰ}
use mathlib.Core.List.Memᴰ.{head, tail}
use cofi.Commands.Registry.{CommandSpec}
use cofi.Commands.Parser.{
  Best, compacts, best_name, best_of_names, names_of, best_of_command, best_compact,
  is_exact_command, split_compact_command,
}

best_name-le :
    (token suffix primary : Bytes) (best : Best) (name : Bytes)
    → best.1 ≤ (best_name token suffix primary best name).1
best_name-le token suffix primary best name = ground arith

best_of_names-le :
    (token suffix primary : Bytes) (names : List Bytes) (best : Best)
    → best.1 ≤ (best_of_names token suffix primary names best).1
unfolding best_of_names
best_of_names-le token suffix primary [] best = omega arith
best_of_names-le token suffix primary (n ∷ names) best = omega (
  arith,
  best_name-le token suffix primary best n,
  best_of_names-le token suffix primary names (best_name token suffix primary best n),
)

best_name-there :
    (token suffix primary : Bytes) (best : Best) (name : Bytes)
    → compacts token suffix name ≡ true
    → length name ≤ (best_name token suffix primary best name).1
best_name-there token suffix primary best name h = ground (arith, h)

best_of_names-there :
    (token suffix primary : Bytes) (names : List Bytes) (best : Best) {name : Bytes}
    → Memᴰ name names
    → compacts token suffix name ≡ true
    → length name ≤ (best_of_names token suffix primary names best).1
unfolding best_of_names
best_of_names-there token suffix primary [] best m h = elim m [ ]
best_of_names-there token suffix primary (n ∷ names) best {name} (head same) h = omega (
  arith,
  ap length same,
  best_name-there token suffix primary best n (subst (λ x. compacts token suffix x ≡ true) same h),
  best_of_names-le token suffix primary names (best_name token suffix primary best n),
)
best_of_names-there token suffix primary (n ∷ names) best (tail m) h =
    best_of_names-there token suffix primary names (best_name token suffix primary best n) m h

best_of_command-le :
    (token : Bytes) (best : Best) (spec : CommandSpec)
    → best.1 ≤ (best_of_command token best spec).1
unfolding best_of_command
best_of_command-le token best spec = elim (Option-cases spec.compact_suffix) [
  | inl none_given ↦ rw none_given (omega arith)
  | inr (suffix, e) ↦ rw e (elim (Option-cases spec.primary) [
    | inl none_given ↦ rw none_given (omega arith)
    | inr (primary, e') ↦ rw e' (best_of_names-le token suffix primary (names_of primary spec) best)
  ])
]

best_compact-le :
    (token : Bytes) (commands : List CommandSpec) (best : Best)
    → best.1 ≤ (best_compact token commands best).1
unfolding best_compact
best_compact-le token [] best = omega arith
best_compact-le token (spec ∷ commands) best = omega (
  arith,
  best_of_command-le token best spec,
  best_compact-le token commands (best_of_command token best spec),
)

-- A name of a command that fits the token.
pub record Fits (commands : List CommandSpec) (token primary name : Bytes) : Type 0 where
  pub spec : CommandSpec
  pub suffix : Bytes
  pub registered : Memᴰ spec commands
  pub primary_is : spec.primary ≡ some primary
  pub suffix_is : spec.compact_suffix ≡ some suffix
  pub is_name : Memᴰ name (names_of primary spec)
  pub fits : compacts token suffix name ≡ true

best_compact-there :
    (token : Bytes) (commands : List CommandSpec) (best : Best) {suffix primary name : Bytes}
    {spec : CommandSpec}
    → Memᴰ spec commands
    → spec.primary ≡ some primary
    → spec.compact_suffix ≡ some suffix
    → Memᴰ name (names_of primary spec)
    → compacts token suffix name ≡ true
    → length name ≤ (best_compact token commands best).1
unfolding best_compact best_of_command
best_compact-there token [] best r e e' m h = elim r [ ]
best_compact-there token (s ∷ commands) best {suffix} {primary} {name} {spec} (head same) e e' m h =
    omega (arith, first, best_compact-le token commands (best_of_command token best s))
  where
    first : length name ≤ (best_of_command token best s).1
    first =
        rw (← same)
          (rw (e', e) (best_of_names-there token suffix primary (names_of primary spec) best m h))
best_compact-there token (s ∷ commands) best (tail r) e e' m h =
    best_compact-there token commands (best_of_command token best s) r e e' m h

-- What is best so far is a name that fits, or nothing.
record Chosen (commands : List CommandSpec) (token : Bytes) (best : Best) : Type 0 where
  primary : Bytes
  name : Bytes
  chosen : best.0 ≡ some primary
  fitting : Fits commands token primary name
  length_is : best.1 ≡ length name

abbrev Sound : List CommandSpec → Bytes → Best → Type 0
Sound commands token best = (best.1 ≡ 0) ⊎ Chosen commands token best

best_name-Sound :
    (commands : List CommandSpec) (token suffix primary : Bytes) (best : Best) (name : Bytes)
    → (compacts token suffix name ≡ true → Fits commands token primary name)
    → Sound commands token best
    → Sound commands token (best_name token suffix primary best name)
best_name-Sound commands token suffix primary best name f s =
    elim (Bool-cases (compacts token suffix name && ltb best.1 (length name))) [
      | inl better ↦ rw better (
          inr (record {
            primary = primary;
            name = name;
            chosen = refl;
            fitting = f (ground (arith, better));
            length_is = refl;
          }))
      | inr other ↦ rw other s
    ]

best_of_names-Sound :
    (commands : List CommandSpec) (token suffix primary : Bytes) (names : List Bytes) (best : Best)
    → ((name : Bytes)
        → Memᴰ name names
        → compacts token suffix name ≡ true
        → Fits commands token primary name)
    → Sound commands token best
    → Sound commands token (best_of_names token suffix primary names best)
unfolding best_of_names
best_of_names-Sound commands token suffix primary [] best f s = s
best_of_names-Sound commands token suffix primary (n ∷ names) best f s =
    best_of_names-Sound commands token suffix primary names (best_name token suffix primary best n)
      (λ name m. f name (tail m))
      (best_name-Sound commands token suffix primary best n (f n (head refl)) s)

no_suffix :
    (token : Bytes) (best : Best) (spec : CommandSpec)
    → spec.compact_suffix ≡ none
    → best_of_command token best spec ≡ best
unfolding best_of_command
no_suffix token best spec e = rw e refl

no_primary :
    (token : Bytes) (best : Best) (spec : CommandSpec) {suffix : Bytes}
    → spec.compact_suffix ≡ some suffix
    → spec.primary ≡ none
    → best_of_command token best spec ≡ best
unfolding best_of_command
no_primary token best spec e e' = rw (e, e') refl

both_given :
    (token : Bytes) (best : Best) (spec : CommandSpec) {suffix primary : Bytes}
    → spec.compact_suffix ≡ some suffix
    → spec.primary ≡ some primary
    → best_of_command token best spec
      ≡ best_of_names token suffix primary (names_of primary spec) best
unfolding best_of_command
both_given token best spec e e' = rw (e, e') refl

best_of_command-Sound :
    (commands : List CommandSpec) (token : Bytes) (best : Best) (spec : CommandSpec)
    → Memᴰ spec commands
    → Sound commands token best
    → Sound commands token (best_of_command token best spec)
best_of_command-Sound commands token best spec r s = elim (Option-cases spec.compact_suffix) [
  | inl none_given ↦ subst (Sound commands token) (sym (no_suffix token best spec none_given)) s
  | inr (suffix, e) ↦ elim (Option-cases spec.primary) [
    | inl none_given ↦
        subst (Sound commands token) (sym (no_primary token best spec e none_given)) s
    | inr (primary, e') ↦ subst (Sound commands token) (sym (both_given token best spec e e')) (
        best_of_names-Sound commands token suffix primary (names_of primary spec) best
          (λ name m h. record {
            spec = spec;
            suffix = suffix;
            registered = r;
            primary_is = e';
            suffix_is = e;
            is_name = m;
            fits = h;
          })
          s)
  ]
]

best_compact-Sound :
    (commands : List CommandSpec) (token : Bytes) (rest : List CommandSpec) (best : Best)
    → ((spec : CommandSpec) → Memᴰ spec rest → Memᴰ spec commands)
    → Sound commands token best
    → Sound commands token (best_compact token rest best)
unfolding best_compact
best_compact-Sound commands token [] best f s = s
best_compact-Sound commands token (spec ∷ rest) best f s =
    best_compact-Sound commands token rest (best_of_command token best spec) (λ c m. f c (tail m))
      (best_of_command-Sound commands token best spec (f spec (head refl)) s)

-- The two buffers behind a split at a name.
abbrev split_at : Bytes → Bytes → ℕ → ℕ → ℕ → Bytes × Bytes
split_at token primary n cmd_size arg_size =
    (copy_to cmd_size primary, copy_to arg_size (drop n token))

pub record LongestSplit (commands : List CommandSpec) (token : Bytes) (cmd_size arg_size : ℕ)
    (name : Bytes) (result : Bytes × Bytes) : Type 0 where
  primary : Bytes
  longest : Bytes
  fitting : Fits commands token primary longest
  split : result ≡ split_at token primary (length longest) cmd_size arg_size
  not_shorter : length name ≤ length longest

split_from :
    (commands : List CommandSpec) (token : Bytes) (cmd_size arg_size : ℕ) (out : Bytes × Bytes)
    (name : Bytes) (best : Best)
    → best_compact token commands (none, 0) ≡ best
    → is_exact_command commands token ≡ false
    → 0 < length name
    → length name ≤ best.1
    → Sound commands token best
    → LongestSplit commands token cmd_size arg_size name
        (split_compact_command commands token cmd_size arg_size out)
unfolding split_compact_command
split_from commands token cmd_size arg_size out name best e exact some_byte le (inl zero_length) =
    absurd (omega (arith, some_byte, le, zero_length))
split_from commands token cmd_size arg_size out name best e exact some_byte le (inr c) = record {
  primary = c.primary;
  longest = c.name;
  fitting = c.fitting;
  split = rw (exact, e, c.chosen, ← c.length_is) (rw e refl);
  not_shorter = omega (arith, le, c.length_is);
}

-- A token that is no name of a command itself, but starts with a name of a command and goes on with a
-- byte of that command's suffix, is split behind a name that fits in this way and is at least as
-- long; the command is the primary of the longer name, and the argument is what stands behind it,
-- both cut to their buffers.
pub split_compact_command-LongestSplit :
    (commands : List CommandSpec) (token : Bytes) (cmd_size arg_size : ℕ) (out : Bytes × Bytes)
    (primary name : Bytes)
    → is_exact_command commands token ≡ false
    → Fits commands token primary name
    → 0 < length name
    → LongestSplit commands token cmd_size arg_size name
        (split_compact_command commands token cmd_size arg_size out)
split_compact_command-LongestSplit commands token cmd_size arg_size out primary name exact f
      some_byte =
    split_from commands token cmd_size arg_size out name (best_compact token commands (none, 0))
      refl exact some_byte
      (best_compact-there token commands (none, 0) f.registered f.primary_is f.suffix_is f.is_name
        f.fits)
      (best_compact-Sound commands token commands (none, 0) (λ spec m. m) (inl refl))

-- ===== src/Commands/Registry/Names.antt =====
-- The registry as a map from names to commands.
use cofi.Prelude.{
  ℕ, zero, suc, ◌≡◌, ◌⊎◌, refl, sym, ap, ◌∙◌, subst, Bool, true, false, List, [], ◌∷◌, ◌++◌, Option,
  none, some, Bytes, length, take, get_elem?, exists_in, find_first, bytes_eq, bytes_eq_iff, leb,
  if◌then◌else◌, arith, Bool-cases, Option-cases, inl, inr,
}
use cofi.Commands.Registry.{
  CommandSpec, max_commands, command_has_name, name_is_registered, cofi_register_command,
  cofi_command_at, cofi_command_for_token,
}

-- What a registration finds out when it succeeds.
pub record Registered (spec : CommandSpec) (commands later : List CommandSpec) : Type 0 where
  pub named : Bytes
  pub primary_is : spec.primary ≡ some named
  pub primary_new : name_is_registered commands named ≡ false
  pub aliases_new :
      exists_in (λ alias. name_is_registered commands alias) (take 5 spec.aliases) ≡ false
  pub appended : later ≡ commands ++ spec ∷ []

register-Registered :
    (spec : CommandSpec) (commands : List CommandSpec) {later : List CommandSpec} {index : ℕ}
    → cofi_register_command spec commands ≡ (later, some index)
    → Registered spec commands later
unfolding cofi_register_command
register-Registered spec commands {later} {index} e = elim (Option-cases spec.primary) [
  | inl none_given ↦ absurd (ground (arith, e, none_given))
  | inr (p, primary) ↦ elim (Option-cases spec.owner_provider_id) [
    | inl none_given ↦ absurd (ground (arith, e, primary, none_given))
    | inr (o, owner) ↦ elim (Bool-cases (leb max_commands (length commands))) [
      | inl full ↦ absurd (ground (arith, e, primary, owner, full))
      | inr room ↦ elim (Bool-cases (name_is_registered commands p)) [
        | inl old ↦ absurd (ground (arith, e, primary, owner, room, old))
        | inr new ↦
            elim (Bool-cases
              (exists_in (λ alias. name_is_registered commands alias) (take 5 spec.aliases))) [
                | inl old ↦ absurd (ground (arith, e, primary, owner, room, new, old))
                | inr aliases ↦ record {
                  named = p;
                  primary_is = primary;
                  primary_new = new;
                  aliases_new = aliases;
                  appended = ground (arith, e, primary, owner, room, new, aliases);
                }
              ]
      ]
    ]
  ]
]

find_first_append {ℓ} :
    {A : Type ℓ} (p : A → Bool) (xs : List A) (y : A)
    → exists_in p xs ≡ false
    → find_first p (xs ++ y ∷ []) ≡ (if p y then some y else none)
find_first_append p [] y h = refl
find_first_append p (x ∷ xs) y h = elim (Bool-cases (p x)) [
  | inl found ↦ absurd (ground (arith, h, found))
  | inr other ↦ rw other (find_first_append p xs y (sym (rw other refl) ∙ h))
]

find_first_earlier {ℓ} :
    {A : Type ℓ} (p : A → Bool) (xs : List A) (y : A)
    → p y ≡ false
    → find_first p (xs ++ y ∷ []) ≡ find_first p xs
find_first_earlier p [] y h = rw h refl
find_first_earlier p (x ∷ xs) y h =
    ap (λ r. if p x then some x else r) (find_first_earlier p xs y h)

alias_new :
    (commands : List CommandSpec) (token : Bytes) (aliases : List Bytes)
    → exists_in (λ alias. name_is_registered commands alias) aliases ≡ false
    → exists_in (λ alias. bytes_eq alias token) aliases ≡ true
    → name_is_registered commands token ≡ false
alias_new commands token [] h e = absurd (ground (arith, e))
alias_new commands token (a ∷ aliases) h e = elim (Bool-cases (name_is_registered commands a)) [
  | inl old ↦ absurd (ground (arith, h, old))
  | inr new ↦ elim (Bool-cases (bytes_eq a token)) [
    | inl same ↦
        subst (λ t. name_is_registered commands t ≡ false) ((bytes_eq_iff a token).0 same) new
    | inr other ↦ alias_new commands token aliases (sym (rw new refl) ∙ h) (sym (rw other refl) ∙ e)
  ]
]

-- The names of a command that is registered were not in use.
name_new :
    (spec : CommandSpec) (commands later : List CommandSpec) (token : Bytes)
    → Registered spec commands later
    → command_has_name spec token ≡ true
    → name_is_registered commands token ≡ false
name_new spec commands later token r h = elim (Bool-cases (bytes_eq r.named token)) [
  | inl same ↦
      subst (λ t. name_is_registered commands t ≡ false) ((bytes_eq_iff r.named token).0 same)
        r.primary_new
  | inr other ↦
      alias_new commands token (take 5 spec.aliases) r.aliases_new
        (sym (rw (r.primary_is) (rw other refl)) ∙ h)
]

-- A registration that succeeds gives the command its names, and leaves every other name to the command
-- that had it.
pub register-for_token :
    (spec : CommandSpec) (commands later : List CommandSpec) (index : ℕ) (token : Bytes)
    → cofi_register_command spec commands ≡ (later, some index)
    → cofi_command_for_token later token
      ≡ (if command_has_name spec token then some spec else cofi_command_for_token commands token)
register-for_token spec commands later index token e =
    let r = register-Registered spec commands e in
    rw (r.appended) (elim (Bool-cases (command_has_name spec token)) [
      | inl has ↦
          find_first_append (λ c. command_has_name c token) commands spec
            (name_new spec commands later token r has)
          ∙ sym (rw has refl)
      | inr other ↦
          find_first_earlier (λ c. command_has_name c token) commands spec other
          ∙ sym (rw other refl)
    ])

exists_at {ℓ} :
    {A : Type ℓ} (p : A → Bool) (xs : List A) (i : ℕ) {x : A}
    → get_elem? xs i ≡ some x
    → p x ≡ true
    → exists_in p xs ≡ true
exists_at p [] i e h = cc
exists_at p (y ∷ xs) zero {x} e h = rw the_same refl
  where
    the_same : p y ≡ true
    the_same = ground (arith, e, h)
exists_at p (y ∷ xs) (suc i) e h = elim (Bool-cases (p y)) [
  | inl found ↦ rw found refl
  | inr other ↦ rw other (exists_at p xs i e h)
]

get_elem?_snoc {ℓ} :
    {A : Type ℓ} (xs : List A) (y : A) (i : ℕ) {x : A}
    → get_elem? (xs ++ y ∷ []) i ≡ some x
    → (get_elem? xs i ≡ some x) ⊎ (y ≡ x)
get_elem?_snoc [] y zero e = inr (ground (arith, e))
get_elem?_snoc [] y (suc i) e = cc
get_elem?_snoc (z ∷ xs) y zero e = inl e
get_elem?_snoc (z ∷ xs) y (suc i) e = get_elem?_snoc xs y i e

-- The registries that the code can have: none registered, and one more with each registration.
pub data Reachable : List CommandSpec → Type 0 where
  start : Reachable []
  register :
      {later : List CommandSpec} (commands : List CommandSpec) (spec : CommandSpec)
      (result : Option ℕ)
      → Reachable commands
      → cofi_register_command spec commands ≡ (later, result)
      → Reachable later

refused :
    (spec : CommandSpec) (commands : List CommandSpec) {later : List CommandSpec}
    → cofi_register_command spec commands ≡ (later, none)
    → later ≡ commands
unfolding cofi_register_command
refused spec commands {later} e = ground (arith, e)

-- In a registry that the code can reach, every name of a registered command finds that command.
pub Reachable-for_token :
    (commands : List CommandSpec) (index : ℕ) (spec : CommandSpec) (token : Bytes)
    → Reachable commands
    → cofi_command_at commands index ≡ some spec
    → command_has_name spec token ≡ true
    → cofi_command_for_token commands token ≡ some spec
Reachable-for_token commands index spec token start e has = cc
Reachable-for_token commands index spec token (register before newest none r step) e has =
    let same = refused newest before step in
    rw same (Reachable-for_token before index spec token r (rw same at e) has)
Reachable-for_token commands index spec token (register before newest (some i) r step) e has =
    let registered = register-Registered newest before step in
    let appended : commands ≡ before ++ newest ∷ [] = registered.appended in
    register-for_token newest before commands i token step
    ∙ elim (get_elem?_snoc before newest index (rw appended at e)) [
      | inl earlier ↦ elim (Bool-cases (command_has_name newest token)) [
        | inl clash ↦
            let old = exists_at (λ c. command_has_name c token) before index earlier has in
            let new = name_new newest before commands token registered clash in
            absurd (ground (arith, old, new))
        | inr other ↦ rw other (Reachable-for_token before index spec token r earlier has)
      ]
      | inr newest_is ↦ rw newest_is (rw has refl)
    ]

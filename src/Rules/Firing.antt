-- ===== src/Rules/Firing.antt =====
-- src/rules/rules.c: when a rule fires.
use cofi.Prelude.{
  ℕ, ◌<◌, ◌≡◌, refl, ap, ◌∙◌, inl, inr, Bool, true, false, not, ◌&&◌, [], ◌∷◌, ◌++◌, Option, none,
  some, Bytes, length, get_elem?, set, find_index, find_first, find_index-snoc, find_first-set_self,
  find_first-set_ne, find_first-snoc, find_first_of_none, find_first_of_find_index,
  get_elem?-append, ◌==◌, ==_refl, if◌then◌else◌, arith, Bool-cases, Option-cases,
}
use cofi.Windows.{WindowInfo}
use cofi.Matching.Registry.{MatchEntryManager}
use cofi.Rules.{
  RuleWindowState, RuleState, Checked, max_rule_state_entries, is_state_of, find_or_add_entry,
  rule_matches_window, mark, check_entry, fire_at, check_rule_match,
}
use cofi.Rules.Config.{Rule}

-- What is kept of the last check of a rule on a window: whether it matched; not, if there was none.
abbrev flag_in : Option RuleWindowState → Bool
flag_in none = false
flag_in (some ws) = ws.matched

abbrev pub last_match : RuleState → ℕ → ℕ → Bool
last_match state r id = flag_in (find_first (is_state_of r id) state)

-- The entry that a check works on.
record Located (state : RuleState) (r id : ℕ) : Type 0 where
  state1 : RuleState
  index : ℕ
  entry : RuleWindowState
  found : find_or_add_entry state r id ≡ (state1, some index)
  at_index : find_index (is_state_of r id) state1 ≡ some index
  held : get_elem? state1 index ≡ some entry
  place : is_state_of r id entry ≡ true
  flag : entry.matched ≡ last_match state r id
  others :
      (q : RuleWindowState → Bool)
      → ((x : RuleWindowState) → is_state_of r id x ≡ true → q x ≡ false)
      → find_first q state1 ≡ find_first q state

find_first-snoc_ne :
    (q : RuleWindowState → Bool) (xs : RuleState) (v : RuleWindowState)
    → q v ≡ false
    → find_first q (xs ++ (v ∷ [])) ≡ find_first q xs
find_first-snoc_ne q xs v f = ground (arith, find_first-snoc q xs v)

locate : (state : RuleState) (r id : ℕ) → length state < max_rule_state_entries → Located state r id
unfolding find_or_add_entry
locate state r id room = elim (Option-cases (find_index (is_state_of r id) state)) [
  | inr (i, e) ↦
      let (ws, first, place, held) = find_first_of_find_index (is_state_of r id) state e in
      record {
        state1 = state;
        index = i;
        entry = ws;
        found = rw (e, find_or_add_entry);
        at_index = e;
        held = held;
        place = place;
        flag = rw first;
        others = λ q apart. refl;
      }
  | inl e ↦ record {
    state1 = state ++ (fresh ∷ []);
    index = length state;
    entry = fresh;
    found = rw (e, find_or_add_entry) (ground arith);
    at_index = find_index-snoc (is_state_of r id) state fresh e here;
    held = get_elem?-append state fresh [];
    place = here;
    flag = rw (find_first_of_none (is_state_of r id) state e);
    others = λ q apart. find_first-snoc_ne q state fresh (apart fresh here);
  }
]
  where
    fresh : RuleWindowState
    fresh = record { rule_index = r; id = id; matched = false }

    here : is_state_of r id fresh ≡ true
    here = ground (arith, ==_refl r, ==_refl id)

-- The state with the flag of the entry written.
marked : (state : RuleState) (r id : ℕ) → Located state r id → Bool → RuleState
marked state r id l b = set l.state1 l.index (record (l.entry) { matched = b })

marked-last_match :
    (state : RuleState) (r id : ℕ) (l : Located state r id) (b : Bool)
    → (last_match (marked state r id l b) r id ≡ b)
      × ((r' id' : ℕ)
          → ((r' == r) && (id' == id)) ≡ false
          → last_match (marked state r id l b) r' id' ≡ last_match state r' id')
unfolding marked
marked-last_match state r id l b = (
  ap flag_in (
      find_first-set_self (is_state_of r id) l.state1 (record (l.entry) { matched = b }) l.at_index
        l.place),
  λ r' id' ne. ap flag_in (
      find_first-set_ne (is_state_of r id) (is_state_of r' id') l.state1
        (record (l.entry) { matched = b }) l.at_index (apart r' id' ne)
        (apart r' id' ne (record (l.entry) { matched = b }) l.place)
      ∙ l.others (is_state_of r' id') (apart r' id' ne)),
)
  where
    apart :
        (r' id' : ℕ)
        → ((r' == r) && (id' == id)) ≡ false
        → (x : RuleWindowState) → is_state_of r id x ≡ true
        → is_state_of r' id' x ≡ false
    apart r' id' ne x h = ground arith

-- Marking an entry that is already so changes nothing of what is kept.
kept-last_match :
    (state : RuleState) (r id : ℕ) (l : Located state r id)
    → (last_match l.state1 r id ≡ l.entry.matched)
      × ((r' id' : ℕ)
          → ((r' == r) && (id' == id)) ≡ false
          → last_match l.state1 r' id' ≡ last_match state r' id')
kept-last_match state r id l = (
  here (find_first_of_find_index (is_state_of r id) l.state1 l.at_index),
  λ r' id' ne. ap flag_in (l.others (is_state_of r' id') (apart r' id' ne)),
)
  where
    here :
        ((x : RuleWindowState) × (find_first (is_state_of r id) l.state1 ≡ some x)
          × (is_state_of r id x ≡ true)
          × (get_elem? l.state1 l.index ≡ some x))
        → last_match l.state1 r id ≡ l.entry.matched
    here (x, first, p, held) = rw first (ground (arith, l.held))

    apart :
        (r' id' : ℕ)
        → ((r' == r) && (id' == id)) ≡ false
        → (x : RuleWindowState) → is_state_of r id x ≡ true
        → is_state_of r' id' x ≡ false
    apart r' id' ne x h = ground arith

check_form :
    (rule : Rule) (state : RuleState) (r : ℕ) (m : MatchEntryManager) (w : WindowInfo)
    (l : Located state r w.id)
    → check_rule_match rule state r m w true ≡ (
        if (rule_matches_window rule m w).0
        then fire_at rule l.state1 l.index w
        else (rule, marked state r w.id l false, none))
unfolding check_rule_match check_entry marked
check_form rule state r m w l = rw (l.found) (elim (Bool-cases (rule_matches_window rule m w).0) [
  | inl t ↦ rw t
  | inr f ↦ rw f (rw (l.held, mark))
])

-- What a check of a rule without `once` shows: the rule stays, it fires exactly if it matches and did
-- not match when last checked on the window, and this match is what is kept for the window.
pub record Edge (rule : Rule) (state : RuleState) (r : ℕ) (id : ℕ) (matches : Bool) (out : Checked)
    : Type 0 where
  pub same_rule : out.0 ≡ rule
  pub fires : out.2 ≡ (if matches && not (last_match state r id) then some rule.commands else none)
  pub updated :
      (r' id' : ℕ)
      → last_match out.1 r' id'
        ≡ (if (r' == r) && (id' == id) then matches else last_match state r' id')

-- What is kept of one rule and window, and of all others, in one equation.
updated_of :
    (state state' : RuleState) (r id : ℕ) (matches : Bool)
    → last_match state' r id ≡ matches
    → ((r' id' : ℕ)
        → ((r' == r) && (id' == id)) ≡ false
        → last_match state' r' id' ≡ last_match state r' id')
    → (r' id' : ℕ)
    → last_match state' r' id'
      ≡ (if (r' == r) && (id' == id) then matches else last_match state r' id')
updated_of state state' r id matches kept others r' id' =
    elim (Bool-cases ((r' == r) && (id' == id))) [
      | inl same ↦
          let same_rule : r' ≡ r = ground arith in
          let same_window : id' ≡ id = ground arith in rw same (rw (same_rule, same_window) kept)
      | inr other ↦ rw other (others r' id' other)
    ]

fire_at-Edge :
    (rule : Rule) (state : RuleState) (r : ℕ) (w : WindowInfo) (l : Located state r w.id)
    → rule.once ≡ false
    → Edge rule state r w.id true (fire_at rule l.state1 l.index w)
unfolding fire_at marked
fire_at-Edge rule state r w l often = elim (Bool-cases l.entry.matched) [
  | inl before ↦
      rw (l.held, fire_at)
        (rw before (record {
          same_rule = refl;
          fires = ground (arith, l.flag);
          updated =
              updated_of state l.state1 r w.id true ((kept-last_match state r w.id l).0 ∙ before)
                (kept-last_match state r w.id l).1;
        }))
  | inr news ↦ rw (fires_now news) (record {
    same_rule = refl;
    fires = ground (arith, l.flag);
    updated =
        updated_of state (marked state r w.id l true) r w.id true
          (marked-last_match state r w.id l true).0 (marked-last_match state r w.id l true).1;
  })
]
  where
    fires_now :
        l.entry.matched ≡ false
        → fire_at rule l.state1 l.index w ≡ (rule, marked state r w.id l true, some rule.commands)
    fires_now news = rw (l.held, fire_at) (rw news (simp often (rw (l.held, mark))))

-- A rule without `once`, checked where it may fire and the state has room, stays as it is. It fires, with its commands,
-- exactly if it matches the window and did not match it when it was last checked on it; this match
-- is then the last one for the window, and what is kept of other rules and windows stays.
pub check_rule_match_lem :
    (rule : Rule) (state : RuleState) (r : ℕ) (m : MatchEntryManager) (w : WindowInfo)
    → length state < max_rule_state_entries
    → rule.once ≡ false
    → Edge rule state r w.id
        (rule_matches_window rule m w).0
        (check_rule_match rule state r m w true)
check_rule_match_lem rule state r m w room often =
    let l = locate state r w.id room in
    rw (check_form rule state r m w l) (elim (Bool-cases (rule_matches_window rule m w).0) [
      | inl t ↦ rw t (fire_at-Edge rule state r w l often)
      | inr f ↦ rw f (record {
        same_rule = refl;
        fires = refl;
        updated =
            updated_of state (marked state r w.id l false) r w.id false
              (marked-last_match state r w.id l false).0 (marked-last_match state r w.id l false).1;
      })
    ])

-- A rule with `once` that has fired for a window does not fire again, on any window, while that
-- window is kept as the one it fired for; and it stays as it is.
pub once_spent :
    (rule : Rule) (state : RuleState) (r : ℕ) (m : MatchEntryManager) (w : WindowInfo)
    (allow : Bool)
    → rule.once ≡ true
    → 0 < rule.applied
    → let out = check_rule_match rule state r m w allow in (out.0 ≡ rule) × (out.2 ≡ none)
unfolding check_rule_match check_entry fire_at
once_spent rule state r m w allow o spent = (ground arith, ground arith)

-- A rule with `once` that fires takes the window as the one it has fired for.
pub once_takes_window :
    (rule : Rule) (state : RuleState) (r : ℕ) (m : MatchEntryManager) (w : WindowInfo) {c : Bytes}
    → rule.once ≡ true
    → (check_rule_match rule state r m w true).2 ≡ some c
    → ((check_rule_match rule state r m w true).0 ≡ record rule { applied = w.id })
      × (c ≡ rule.commands)
      × (rule.applied ≡ 0)
      × ((rule_matches_window rule m w).0 ≡ true)
unfolding check_rule_match check_entry fire_at
once_takes_window rule state r m w o h = (ground arith, ground arith, ground arith, ground arith)

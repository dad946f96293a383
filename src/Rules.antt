-- ===== src/Rules.antt =====
-- src/rules: rules that run commands on windows whose title matches. Rules.Config is the list of
-- rules, this module decides when one fires (rules.c), Rules.Breaker limits how often.
pub mod Config
pub mod Firing
pub mod Breaker
pub mod Replay
pub mod Dispatch
mod Examples
use cofi.Prelude.{
  ℕ, zero, suc, ℤ, pos, ◌+◌, ◌-◌, ◌*◌, Bool, true, false, not, ◌&&◌, ◌||◌, List, [], ◌∷◌, ◌++◌,
  Option, none, some, Bytes, is_positive, length, get_elem?, set, take, find_index, keep_if,
  exists_in, map, leb, ltb, ◌==◌, if◌then◌else◌,
}
use cofi.Windows.{WindowInfo}
use cofi.Matching.Registry.{
  MatchEntry, MatchEntryManager, match_entry_find_index_by_match_id, match_entry_matches_window,
}
use cofi.Matching.Registry.Lookup.{at_index}
use cofi.Rules.Config.{Rule, RulesConfig, max_rules}

-- `MAX_RULES * MAX_WINDOWS`
abbrev pub max_rule_state_entries : ℕ
max_rule_state_entries = 64 * 256

pub data RuleTrigger : Type 0 where
  client_list title_change : RuleTrigger

pub record RuleWindowState : Type 0 where
  pub rule_index : ℕ
  pub id : ℕ
  pub matched : Bool

abbrev pub RuleState : Type 0
RuleState = List RuleWindowState

abbrev pub is_state_of : ℕ → ℕ → RuleWindowState → Bool
is_state_of rule_index id ws = (ws.rule_index == rule_index) && (ws.id == id)

-- The state with an entry for the rule and the window, and its index; none if there is no room.
pub find_or_add_entry : RuleState → ℕ → ℕ → RuleState × Option ℕ
find_or_add_entry state rule_index id = elim (find_index (is_state_of rule_index id) state) [
  | some i ↦ (state, some i)
  | none ↦ if leb max_rule_state_entries (length state) then (state, none) else (
    state ++ (record { rule_index = rule_index; id = id; matched = false } ∷ []),
    some (length state),
  )
]

-- Whether the rule matches the window, and the pattern that is reported.
pub rule_matches_window : Rule → MatchEntryManager → WindowInfo → Bool × Bytes
rule_matches_window rule m w =
    if is_positive rule.match_id
    then (elim (at_index m (match_entry_find_index_by_match_id m rule.match_id)) [
      | none ↦ (false, rule.pattern)
      | some e ↦ (match_entry_matches_window e w, e.original_title)
    ])
    else (false, [])

pub rule_trigger_allows : Rule → RuleTrigger → Bool → Bool
rule_trigger_allows rule title_change is_new = not rule.new_only
rule_trigger_allows rule client_list is_new = if not rule.new_only then true else is_new

-- What a check leaves: the rule, the state, and the commands to run if the rule fires.
abbrev pub Checked : Type 0
Checked = Rule × RuleState × Option Bytes

abbrev pub mark : RuleState → ℕ → Bool → RuleState
mark state i b = elim (get_elem? state i) [
  | none ↦ state
  | some ws ↦ set state i (record ws { matched = b })
]

-- The rule matches, and its entry is at the index.
unfoldable pub fire_at : Rule → RuleState → ℕ → WindowInfo → Checked
fire_at rule state i w = elim (get_elem? state i) [
  | none ↦ (rule, state, none)
  | some ws ↦
      if ws.matched
      then (rule, state, none)
      else if rule.once && not (rule.applied == 0)
      then (rule, state, none)
      else (
        (if rule.once then record rule { applied = w.id } else rule),
        mark state i true,
        some rule.commands,
      )
]

-- The check once the entry is looked up.
unfoldable pub check_entry : Rule → MatchEntryManager → WindowInfo → RuleState × Option ℕ → Checked
check_entry rule m w (state, none) = (rule, state, none)
check_entry rule m w (state, some i) =
    if (rule_matches_window rule m w).0
    then fire_at rule state i w
    else (rule, mark state i false, none)

pub check_rule_match : Rule → RuleState → ℕ → MatchEntryManager → WindowInfo → Bool → Checked
check_rule_match rule state rule_index m w allow_fire =
    if not allow_fire
    then (rule, state, none)
    else check_entry rule m w (find_or_add_entry state rule_index w.id)

-- A rule's window that is gone is forgotten.
pub rules_clear_applied_for_dead_windows : RulesConfig → List ℕ → RulesConfig
rules_clear_applied_for_dead_windows config live =
    map
      (λ r.
        if r.applied == 0
        then r
        else if exists_in (λ id. id == r.applied) live
        then r
        else record r { applied = 0 })
      config

-- The entries of other windows, moved together in order.
pub rule_state_remove_window : RuleState → ℕ → RuleState
rule_state_remove_window state id = keep_if (λ ws. not (ws.id == id)) state

-- `windows[i] = windows[count - 1]; count--;`
pub swap_remove : RuleState → ℕ → RuleState
swap_remove state i = elim (get_elem? state (length state - 1)) [
  | none ↦ state
  | some last ↦ take (length state - 1) (set state i last)
]

-- The loop of `rule_state_prune_absent` from index `i` on; each round steps over a live entry or
-- removes another, and takes one of `rounds`.
pub prune_from : ℕ → List ℕ → RuleState → ℕ → RuleState
prune_from zero live state i = state
prune_from (suc rounds) live state i = elim (get_elem? state i) [
  | none ↦ state
  | some ws ↦ elim (exists_in (λ id. id == ws.id) live) [
    | true ↦ prune_from rounds live state (i + 1)
    | false ↦ prune_from rounds live (swap_remove state i) i
  ]
]

-- Enough rounds for every entry.
pub rule_state_prune_absent : RuleState → List ℕ → RuleState
rule_state_prune_absent state live = prune_from (length state) live state 0

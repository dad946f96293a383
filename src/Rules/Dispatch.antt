-- ===== src/Rules/Dispatch.antt =====
-- src/rules/rules_dispatch.c: the rules are checked on the windows, and the commands of those that fire
-- are run. What a command does to the program is a parameter: it may change all of it, also the lists
-- over which the loops go.
pub mod Reentry
use cofi.Prelude.{
  ℕ, zero, suc, ◌+◌, Bool, true, false, not, List, [], ◌∷◌, Option, none, some, Bytes, is_empty,
  length, get_elem?, set, find_index, exists_in, ◌==◌, leb, if◌then◌else◌,
}
use cofi.Windows.{WindowInfo}
use cofi.Matching.Registry.{MatchEntryManager, max_windows}
use cofi.Rules.{
  RuleTrigger, client_list, title_change, RuleState, rule_trigger_allows, check_rule_match,
}
use cofi.Rules.Config.{Rule, RulesConfig, max_rules}
use cofi.Rules.Breaker.{RuleBreakerState, rule_breaker_should_fire}

-- The fields of `AppData` that the rules use, and the others as one.
pub record AppData (W : Type 0) : Type 0 where
  pub rules_config : RulesConfig
  pub rule_state : RuleState
  pub rule_breaker : RuleBreakerState
  pub matching : MatchEntryManager
  pub windows : List WindowInfo
  pub in_rule_dispatch : Bool
  pub others : W

module _ {W : Type 0}
    (execute_command_background : Bytes → AppData W → WindowInfo → AppData W) where
  unfoldable pub execute_rule_match : AppData W → ℕ → WindowInfo → ℕ → Bytes → AppData W
  execute_rule_match app rule_index window now_ms commands =
      let (breaker, fires) =
        rule_breaker_should_fire app.rule_breaker rule_index window.id now_ms in
      if not fires
      then record app { rule_breaker = breaker }
      else record (execute_command_background commands
          (record app { rule_breaker = breaker; in_rule_dispatch = true }) window) {
            in_rule_dispatch = app.in_rule_dispatch;
          }

  -- One rule on one window, once the rule may look at it.
  unfoldable pub check_and_run : Rule → ℕ → WindowInfo → Bool → ℕ → AppData W → AppData W
  unfolding execute_rule_match check_rule_match
  check_and_run rule r w allow_fire now_ms app =
      let (rule', state, commands) =
        check_rule_match rule app.rule_state r app.matching w allow_fire in
      let checked = record app {
        rules_config = set app.rules_config r rule';
        rule_state = state;
      } in
      elim commands [ none ↦ checked | some c ↦ execute_rule_match checked r w now_ms c ]

  unfoldable pub apply_rule : RuleTrigger → Bool → Bool → ℕ → ℕ → ℕ → AppData W → AppData W
  unfolding check_and_run rule_trigger_allows
  apply_rule trigger is_new_window allow_fire now_ms i r app = elim (get_elem? app.rules_config r) [
    | none ↦ app
    | some rule ↦ elim (get_elem? app.windows i) [
      | none ↦ app
      | some w ↦
          if not (rule_trigger_allows rule trigger is_new_window)
          then app
          else check_and_run rule r w allow_fire now_ms app
    ]
  ]

  -- The loop over the rules from `r` on; there are never more than `max_rules`, which are the rounds.
  unfoldable pub rules_from : RuleTrigger → Bool → Bool → ℕ → ℕ → ℕ → ℕ → AppData W → AppData W
  unfolding apply_rule
  rules_from trigger is_new_window allow_fire now_ms i zero r app = app
  rules_from trigger is_new_window allow_fire now_ms i (suc rounds) r app =
      elim (leb (length app.rules_config) r) [
        | true ↦ app
        | false ↦
            rules_from trigger is_new_window allow_fire now_ms i rounds (r + 1)
              (apply_rule trigger is_new_window allow_fire now_ms i r app)
      ]

  -- The loop over the windows from `i` on, with a round for each that the list has room for.
  unfoldable pub windows_from : RuleTrigger → List ℕ → ℕ → ℕ → ℕ → AppData W → AppData W
  unfolding rules_from
  windows_from trigger new_window_ids now_ms zero i app = app
  windows_from trigger new_window_ids now_ms (suc rounds) i app = elim (get_elem? app.windows i) [
    | none ↦ app
    | some w ↦
        let is_new_window = exists_in (λ id. id == w.id) new_window_ids in
        windows_from trigger new_window_ids now_ms rounds (i + 1)
          (rules_from trigger is_new_window is_new_window now_ms i max_rules 0 app)
  ]

  unfoldable pub rules_apply : RuleTrigger → List ℕ → ℕ → AppData W → AppData W
  unfolding windows_from
  rules_apply trigger new_window_ids now_ms app =
      if leb (length app.rules_config) 0
      then app
      else if app.in_rule_dispatch
      then app
      else windows_from trigger new_window_ids now_ms max_windows 0 app

  unfoldable pub rules_apply_for_title_change : ℕ → ℕ → AppData W → AppData W
  unfolding rules_from
  rules_apply_for_title_change window_id now_ms app =
      if leb (length app.rules_config) 0
      then app
      else if app.in_rule_dispatch
      then app
      else elim (find_index (λ w. w.id == window_id) app.windows) [
        | none ↦ app
        | some i ↦ rules_from title_change false true now_ms i max_rules 0 app
      ]

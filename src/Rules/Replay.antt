-- ===== src/Rules/Replay.antt =====
-- src/rules/rules_replay.c: the rules are run on the windows that are there. What a command does to the
-- program is a parameter, as where the rules are dispatched: the loops read the windows, the entries
-- and the rule again in each round.
pub mod Rounds
pub mod Once
use cofi.Prelude.{
  ℕ, zero, suc, ◌+◌, Bool, true, false, not, ◌&&◌, none, some, Bytes, length, get_elem?, set, ltb,
  ◌==◌, if◌then◌else◌,
}
use cofi.Windows.{WindowInfo}
use cofi.Matching.Registry.{max_windows}
use cofi.Rules.{rule_matches_window}
use cofi.Rules.Config.{Rule, max_rules}
use cofi.Rules.Dispatch.{AppData}

-- The places of the two arrays behind the live part, which the code reaches through its pointers if a
-- command makes a list shorter. They are among the other fields.
pub record Storage (W : Type 0) : Type 0 where
  pub window_behind : W → ℕ → WindowInfo
  pub rule_behind : W → ℕ → Rule
  pub apply_behind : W → ℕ → ℕ → W

module _ {W : Type 0} (storage : Storage W)
    (execute_command_background : Bytes → AppData W → WindowInfo → AppData W) where
  -- `app->windows[i]`
  abbrev pub window_at : AppData W → ℕ → WindowInfo
  window_at app i = elim (get_elem? app.windows i) [
    | none ↦ storage.window_behind app.others i
    | some w ↦ w
  ]

  -- `app->rules_config.rules[r]`
  abbrev pub rule_at : AppData W → ℕ → Rule
  rule_at app r = elim (get_elem? app.rules_config r) [
    | none ↦ storage.rule_behind app.others r
    | some rule ↦ rule
  ]

  -- `rules[r].applied = id`
  abbrev pub set_applied : AppData W → ℕ → ℕ → AppData W
  set_applied app r id = elim (get_elem? app.rules_config r) [
    | none ↦ record app { others = storage.apply_behind app.others r id }
    | some rule ↦ record app {
      rules_config = set app.rules_config r (record rule { applied = id });
    }
  ]

  -- One round of the loop over the windows, and whether the rule is run.
  unfoldable pub replay_on_window : ℕ → ℕ → AppData W → AppData W × Bool
  replay_on_window r i app =
      let rule = rule_at app r in
      let window = window_at app i in
      if rule.once && not (rule.applied == 0)
      then (app, false)
      else if not (rule_matches_window rule app.matching window).0
      then (app, false)
      else (let after = execute_command_background rule.commands app window in
          (set_applied after r (window_at after i).id, true))

  -- The loop over the windows from `i` on, with a round for each that the list has room for.
  unfoldable pub replay_from : ℕ → ℕ → ℕ → ℕ → AppData W → AppData W × ℕ
  replay_from zero i r replayed app = (app, replayed)
  replay_from (suc rounds) i r replayed app = elim (ltb i (length app.windows)) [
    | false ↦ (app, replayed)
    | true ↦
        let (app', ran) = replay_on_window r i app in
        replay_from rounds (i + 1) r (if ran then replayed + 1 else replayed) app'
  ]

  -- The rule is given by its place; the number is that of the runs.
  unfoldable pub replay_rule_against_open_windows : ℕ → AppData W → AppData W × ℕ
  unfolding replay_from
  replay_rule_against_open_windows r app = replay_from max_windows 0 r 0 app

  unfoldable pub replay_all_from : ℕ → ℕ → ℕ → AppData W → AppData W × ℕ
  unfolding replay_rule_against_open_windows
  replay_all_from zero r replayed app = (app, replayed)
  replay_all_from (suc rounds) r replayed app = elim (ltb r (length app.rules_config)) [
    | false ↦ (app, replayed)
    | true ↦
        let (app', n) = replay_rule_against_open_windows r app in
        replay_all_from rounds (r + 1) (replayed + n) app'
  ]

  pub replay_all_rules_against_open_windows : AppData W → AppData W × ℕ
  unfolding replay_all_from
  replay_all_rules_against_open_windows app = replay_all_from max_rules 0 0 app

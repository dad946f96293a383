-- ===== src/Rules/Examples.antt =====
-- Runs of the rules.
use cofi.Prelude.{
  ℕ, zero, suc, ◌<◌, none, some, find_index, List, Bytes, pos, ◌≡◌, ◌≤◌, ◌-◌, refl, true, false, [],
  ◌∷◌, codes, arith,
}
use cofi.Matching.Examples.{editor, two_entries}
use cofi.Windows.{WindowInfo}
use cofi.Rules.{check_rule_match, rule_matches_window, client_list}
use cofi.Rules.Config.{Rule}
use cofi.Rules.Firing.{Edge, check_rule_match_lem}
use cofi.Rules.Replay.{Storage, replay_rule_against_open_windows}
use cofi.Rules.Replay.Rounds.{run_once, LeavesRule}
use cofi.Rules.Replay.Once.{replay_once}
use cofi.Rules.Dispatch.{AppData, rules_apply}
use cofi.Rules.Dispatch.Reentry.{and_apply, rules_apply-nested}
use cofi.Rules.Breaker.{RuleBreakerEntry, proceeding, burst_limit, burst_limit_lem}

abbrev often : Rule
often = record {
  match_id = pos 1;
  pattern = codes "*";
  commands = codes "jw 1";
  tag = [];
  once = false;
  new_only = false;
  applied = 0;
}

check_rule_match_lem_example :
    Edge often [] 0 7
      (rule_matches_window often two_entries editor).0
      (check_rule_match often [] 0 two_entries editor true)
check_rule_match_lem_example = check_rule_match_lem often [] 0 two_entries editor (omega arith) refl

abbrev bursting : RuleBreakerEntry
bursting = record {
  rule_index = 0;
  window_id = 7;
  burst_start_ms = 100;
  burst_count = 5;
  last_fire_ms = 200;
  suppressed = true;
  logged = true;
}

burst_limit_lem_example :
    proceeding (record bursting { burst_count = 3; suppressed = false }) (110 ∷ 120 ∷ 130 ∷ [])
    ≤ burst_limit - 3
burst_limit_lem_example =
    burst_limit_lem (record bursting { burst_count = 3; suppressed = false }) (110 ∷ 120 ∷ 130 ∷ [])
      (record { within = λ e. omega arith; ordered = λ e. ground arith })
      (omega arith, (omega arith, (omega arith, tt)))

-- The other fields are the commands that have been run.
abbrev log_command : Bytes → AppData (List Bytes) → WindowInfo → AppData (List Bytes)
log_command commands app w = record app { others = commands ∷ app.others }

abbrev idle_app : AppData (List Bytes)
idle_app = record {
  rules_config = often ∷ [];
  rule_state = [];
  rule_breaker = [];
  matching = two_entries;
  windows = editor ∷ [];
  in_rule_dispatch = false;
  others = [];
}

rules_apply-nested_example :
    rules_apply
      (and_apply log_command client_list (editor.id ∷ []) 100)
      client_list
      (editor.id ∷ [])
      100
      idle_app
    ≡ rules_apply log_command client_list (editor.id ∷ []) 100 idle_app
rules_apply-nested_example =
    rules_apply-nested log_command client_list (editor.id ∷ []) 100 (λ commands app w h. h)
      client_list (editor.id ∷ []) 100 idle_app

abbrev nothing_behind : Storage (List Bytes)
nothing_behind = record {
  window_behind = λ others i. editor;
  rule_behind = λ others r. often;
  apply_behind = λ others r id. others;
}

abbrev only_once : Rule
only_once = record often { once = true }

abbrev once_app : AppData (List Bytes)
once_app = record idle_app { rules_config = only_once ∷ [] }

replay_once_example :
    replay_rule_against_open_windows nothing_behind log_command 0 once_app
    ≡ (elim (find_index (λ w. (rule_matches_window only_once two_entries w).0) (editor ∷ [])) [
      | none ↦ (once_app, 0)
      | some i ↦ run_once nothing_behind log_command once_app 0 only_once i
    ])
replay_once_example =
    replay_once nothing_behind log_command once_app 0 only_once refl refl refl (omega arith)
      (λ i lt. at_place i lt)
  where
    at_place : (i : ℕ) → i < 1 → LeavesRule nothing_behind log_command once_app 0 only_once i
    at_place zero lt = (only_once, refl, refl, omega arith)
    at_place (suc i) lt = absurd (omega (arith, lt))

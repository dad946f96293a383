-- ===== src/Rules/Replay/Once.antt =====
-- src/rules/rules_replay.c: a rule with `once` in a replay, whatever its commands do to the program.
use mathlib.Core.List.{append_assoc, append-nil}
use cofi.Prelude.{
  ℕ, zero, suc, ◌+◌, ◌≤◌, ◌<◌, ◌≡◌, refl, sym, ap, ◌∙◌, true, false, not, ◌&&◌, List, [], ◌∷◌, ◌++◌,
  Option, none, some, Bytes, length, get_elem?, find_index, ltb, ◌==◌, arith, Bool-cases, inl, inr,
  length-append, get_elem?-append,
}
use cofi.Windows.{WindowInfo}
use cofi.Matching.Registry.{max_windows}
use cofi.Rules.{rule_matches_window}
use cofi.Rules.Config.{Rule}
use cofi.Rules.Dispatch.{AppData}
use cofi.Rules.Replay.{Storage, replay_from, replay_rule_against_open_windows}
use cofi.Rules.Replay.Rounds.{
  run_once, LeavesRule, run_once-spent, round_hit, round_miss, spent_lem,
}

module _ {W : Type 0} (storage : Storage W)
    (execute : Bytes → AppData W → WindowInfo → AppData W) where
  -- The loop with the windows before its index behind it.
  once_from :
      (rounds r : ℕ) (app : AppData W) (rule : Rule) (seen rest : List WindowInfo)
      → app.windows ≡ seen ++ rest
      → length rest ≤ rounds
      → get_elem? app.rules_config r ≡ some rule
      → (rule.once && not (rule.applied == 0)) ≡ false
      → ((i : ℕ) → i < length app.windows → LeavesRule storage execute app r rule i)
      → replay_from storage execute rounds (length seen) r 0 app
        ≡ (elim (find_index (λ w. (rule_matches_window rule app.matching w).0) rest) [
          | none ↦ (app, 0)
          | some j ↦ run_once storage execute app r rule (length seen + j)
        ])
  unfolding replay_from find_index
  once_from zero r app rule seen [] split fits there new leaves = refl
  once_from zero r app rule seen (w ∷ rest) split fits there new leaves =
      absurd (omega (arith, fits))
  once_from (suc rounds) r app rule seen [] split fits there new leaves =
      let past : ltb (length seen) (length app.windows) ≡ false =
        rw (split, append-nil seen) (ground arith) in
      rw (past, replay_from) refl
  once_from (suc rounds) r app rule seen (w ∷ rest) split fits there new leaves =
      let all : length app.windows ≡ length seen + suc (length rest) =
        rw split (length-append seen (w ∷ rest)) in
      let more : ltb (length seen) (length app.windows) ≡ true = ground (arith, all) in
      let at_i : get_elem? app.windows (length seen) ≡ some w =
        rw split (get_elem?-append seen w rest) in
      elim (Bool-cases (rule_matches_window rule app.matching w).0) [
        | inl hit ↦
            let left = leaves (length seen) (omega (arith, all)) in
            let (rule', still, spent) =
              run_once-spent storage execute app r rule (length seen) left in
            rw
              (
                more,
                replay_from,
                round_hit storage execute (length seen) r app rule w there at_i new hit left,
                hit,
              )
              (spent_lem storage execute rounds (length seen + 1) r 1
                  (run_once storage execute app r rule (length seen)).0 rule' still spent
                ∙ ap (run_once storage execute app r rule) (omega arith))
        | inr miss ↦
            let ih =
              once_from rounds r app rule (seen ++ (w ∷ [])) rest
                (split ∙ sym (append_assoc seen (w ∷ []) rest)) (omega (arith, fits)) there new
                leaves in
            let stepped : length (seen ++ (w ∷ [])) ≡ length seen + 1 =
              length-append seen (w ∷ []) in
            rw
              (
                more,
                replay_from,
                round_miss storage execute (length seen) r app rule w there at_i miss,
                miss,
              )
              ((rw stepped at ih)
                ∙ shifted (find_index (λ v. (rule_matches_window rule app.matching v).0) rest))
      ]
    where
      shifted :
          (found : Option ℕ)
          → Path
              (AppData W × ℕ)
              (elim found [
                | none ↦ (app, 0)
                | some j ↦ run_once storage execute app r rule (length (seen ++ (w ∷ [])) + j)
              ])
              (elim (elim found as (λ _. Option ℕ) [ none ↦ none | some j ↦ some (suc j) ]) [
                | none ↦ (app, 0)
                | some j ↦ run_once storage execute app r rule (length seen + j)
              ])
      shifted none = refl
      shifted (some j) =
          ap (run_once storage execute app r rule) (omega (arith, length-append seen (w ∷ [])))

  -- A rule with `once` that has not fired is run once, for the first window that it matches, if there is
  -- one, and keeps the number of the window that then stands at that place; nothing else is changed but
  -- by its commands, which may change everything as long as the rule is still at its place afterwards,
  -- still has `once`, and the window at that place has a number other than 0. There are at most 256
  -- windows.
  pub replay_once :
      (app : AppData W) (r : ℕ) (rule : Rule)
      → get_elem? app.rules_config r ≡ some rule
      → rule.once ≡ true
      → rule.applied ≡ 0
      → length app.windows ≤ max_windows
      → ((i : ℕ) → i < length app.windows → LeavesRule storage execute app r rule i)
      → replay_rule_against_open_windows storage execute r app
        ≡ (elim (find_index (λ w. (rule_matches_window rule app.matching w).0) app.windows) [
          | none ↦ (app, 0)
          | some i ↦ run_once storage execute app r rule i
        ])
  unfolding replay_rule_against_open_windows
  replay_once app r rule there once new fits leaves =
      once_from max_windows r app rule [] app.windows refl fits there (ground (arith, once, new))
        leaves
      ∙ unshifted (find_index (λ w. (rule_matches_window rule app.matching w).0) app.windows)
    where
      unshifted :
          (found : Option ℕ)
          → Path
              (AppData W × ℕ)
              (elim found [
                | none ↦ (app, 0)
                | some j ↦ run_once storage execute app r rule (0 + j)
              ])
              (elim found [ none ↦ (app, 0) | some j ↦ run_once storage execute app r rule j ])
      unshifted none = refl
      unshifted (some j) = ap (run_once storage execute app r rule) (omega arith)

-- ===== src/Rules/Replay/Rounds.antt =====
-- src/rules/rules_replay.c: one round of the loop over the windows.
use cofi.Prelude.{
  ℕ, zero, suc, ◌+◌, ◌<◌, ◌≡◌, refl, ap, true, false, not, ◌&&◌, List, [], ◌∷◌, some, Bytes, length,
  get_elem?, set, ltb, ◌==◌, arith, Bool-cases, inl, inr,
}
use cofi.Windows.{WindowInfo}
use cofi.Rules.{rule_matches_window}
use cofi.Rules.Config.{Rule}
use cofi.Rules.Dispatch.{AppData}
use cofi.Rules.Replay.{Storage, window_at, rule_at, set_applied, replay_on_window, replay_from}

get_elem?-set :
    (xs : List Rule) (i : ℕ) (v : Rule) {x : Rule}
    → get_elem? xs i ≡ some x
    → get_elem? (set xs i v) i ≡ some v
get_elem?-set [] i v e = cc
get_elem?-set (x ∷ xs) zero v e = refl
get_elem?-set (x ∷ xs) (suc i) v e = get_elem?-set xs i v e

module _ {W : Type 0} (storage : Storage W)
    (execute : Bytes → AppData W → WindowInfo → AppData W) where
  rule_at-some :
      (app : AppData W) (r : ℕ) (rule : Rule)
      → get_elem? app.rules_config r ≡ some rule
      → rule_at storage execute app r ≡ rule
  rule_at-some app r rule there = rw (there, rule_at) refl

  window_at-some :
      (app : AppData W) (i : ℕ) (w : WindowInfo)
      → get_elem? app.windows i ≡ some w
      → window_at storage execute app i ≡ w
  window_at-some app i w there = rw (there, window_at) refl

  set_applied-some :
      (app : AppData W) (r n : ℕ) (rule : Rule)
      → get_elem? app.rules_config r ≡ some rule
      → set_applied storage execute app r n
        ≡ record app { rules_config = set app.rules_config r (record rule { applied = n }) }
  set_applied-some app r n rule there = rw (there, set_applied) refl

  round_spent :
      (i r : ℕ) (app : AppData W) (rule : Rule)
      → get_elem? app.rules_config r ≡ some rule
      → (rule.once && not (rule.applied == 0)) ≡ true
      → replay_on_window storage execute r i app ≡ (app, false)
  unfolding replay_on_window
  round_spent i r app rule there spent = rw (rule_at-some app r rule there, spent) refl

  pub round_miss :
      (i r : ℕ) (app : AppData W) (rule : Rule) (w : WindowInfo)
      → get_elem? app.rules_config r ≡ some rule
      → get_elem? app.windows i ≡ some w
      → (rule_matches_window rule app.matching w).0 ≡ false
      → replay_on_window storage execute r i app ≡ (app, false)
  unfolding replay_on_window
  round_miss i r app rule w there at_i miss =
      elim (Bool-cases (rule.once && not (rule.applied == 0))) [
        | inl spent ↦ rw (rule_at-some app r rule there, spent) refl
        | inr new ↦ rw (rule_at-some app r rule there, new, window_at-some app i w at_i, miss) refl
      ]

  -- Nothing is run any more for a rule with `once` that has fired.
  pub spent_lem :
      (rounds i r replayed : ℕ) (app : AppData W) (rule : Rule)
      → get_elem? app.rules_config r ≡ some rule
      → (rule.once && not (rule.applied == 0)) ≡ true
      → replay_from storage execute rounds i r replayed app ≡ (app, replayed)
  unfolding replay_from
  spent_lem zero i r replayed app rule there spent = refl
  spent_lem (suc rounds) i r replayed app rule there spent =
      elim (Bool-cases (ltb i (length app.windows))) [
        | inl more ↦
            rw (more, replay_from, round_spent i r app rule there spent)
              (spent_lem rounds (i + 1) r replayed app rule there spent)
        | inr past ↦ rw (past, replay_from) refl
      ]

  -- The command has been run for the window at `i`, and the rule keeps the number that the window at
  -- that place then has.
  abbrev pub run_once : AppData W → ℕ → Rule → ℕ → AppData W × ℕ
  run_once app r rule i =
      let after = execute rule.commands app (window_at storage execute app i) in
      (
        record after {
          rules_config = set after.rules_config r (record (rule_at storage execute after r) {
            applied = (window_at storage execute after i).id;
          });
        },
        1,
      )

  -- Whatever else a run of the rule for the window at `i` changes, the rule is still at its place and has `once`,
  -- and the window at that place has a number.
  abbrev pub LeavesRule : AppData W → ℕ → Rule → ℕ → Type 0
  LeavesRule app r rule i =
      let after = execute rule.commands app (window_at storage execute app i) in
      (rule' : Rule) × (get_elem? after.rules_config r ≡ some rule')
      × (rule'.once ≡ true)
      × (0 < (window_at storage execute after i).id)

  pub round_hit :
      (i r : ℕ) (app : AppData W) (rule : Rule) (w : WindowInfo)
      → get_elem? app.rules_config r ≡ some rule
      → get_elem? app.windows i ≡ some w
      → (rule.once && not (rule.applied == 0)) ≡ false
      → (rule_matches_window rule app.matching w).0 ≡ true
      → LeavesRule app r rule i
      → replay_on_window storage execute r i app ≡ ((run_once app r rule i).0, true)
  unfolding replay_on_window
  round_hit i r app rule w there at_i new hit (rule', still, once, id) =
      rw (rule_at-some app r rule there, new, window_at-some app i w at_i, hit)
        (ap (λ a. (a, true))
          (applied_there (execute rule.commands app w) rule'
            (rw (window_at-some app i w at_i) at still)))
    where
      applied_there :
          (after : AppData W) (rule' : Rule)
          → get_elem? after.rules_config r ≡ some rule'
          → set_applied storage execute after r (window_at storage execute after i).id
            ≡ record after {
              rules_config = set after.rules_config r (record (rule_at storage execute after r) {
                applied = (window_at storage execute after i).id;
              });
            }
      applied_there after rule' still =
          rw (rule_at-some after r rule' still)
            (set_applied-some after r (window_at storage execute after i).id rule' still)

  pub run_once-spent :
      (app : AppData W) (r : ℕ) (rule : Rule) (i : ℕ)
      → LeavesRule app r rule i
      → (rule' : Rule) × (get_elem? (run_once app r rule i).0.rules_config r ≡ some rule')
        × ((rule'.once && not (rule'.applied == 0)) ≡ true)
  run_once-spent app r rule i (rule', there, once, id) =
      let after = execute rule.commands app (window_at storage execute app i) in
      let n = (window_at storage execute after i).id in
      (
        record rule' { applied = n },
        rw (rule_at-some after r rule' there)
            (get_elem?-set after.rules_config r (record rule' { applied = n }) there),
        ground (arith, once, id),
      )

-- ===== src/Rules/Dispatch/Reentry.antt =====
-- A command that applies the rules again, while they are applied, changes nothing by it.
use cofi.Prelude.{
  ℕ, zero, suc, ◌+◌, ◌≡◌, refl, ap, ◌∙◌, Bool, true, false, not, List, Bytes, length, get_elem?,
  exists_in, ◌==◌, leb, if◌then◌else◌, Bool-cases, Option-cases, inl, inr,
}
use cofi.Windows.{WindowInfo}
use cofi.Matching.Registry.{max_windows}
use cofi.Rules.{RuleTrigger, rule_trigger_allows, check_rule_match}
use cofi.Rules.Config.{Rule, max_rules}
use cofi.Rules.Breaker.{rule_breaker_should_fire}
use cofi.Rules.Dispatch.{
  AppData, execute_rule_match, check_and_run, apply_rule, rules_from, windows_from, rules_apply,
}

module _ {W : Type 0} (execute : Bytes → AppData W → WindowInfo → AppData W) where
  skipped :
      (trigger : RuleTrigger) (new_window_ids : List ℕ) (now : ℕ) (app : AppData W)
      → app.in_rule_dispatch ≡ true
      → rules_apply execute trigger new_window_ids now app ≡ app
  unfolding rules_apply
  skipped trigger new_window_ids now app h =
      at (leb (length app.rules_config) 0) (app.in_rule_dispatch) h
    where
      at :
          (a b : Bool)
          → b ≡ true
          → (if a
              then app
              else if b
              then app
              else windows_from execute trigger new_window_ids now max_windows 0 app)
            ≡ app
      at true b e = refl
      at false true e = refl
      at false false e = cc

  -- The command, and then the rules on the windows that are new by then.
  abbrev pub and_apply : RuleTrigger → List ℕ → ℕ → Bytes → AppData W → WindowInfo → AppData W
  and_apply trigger new_window_ids now commands app w =
      rules_apply execute trigger new_window_ids now (execute commands app w)

module _ {W : Type 0} (execute : Bytes → AppData W → WindowInfo → AppData W) (trigger : RuleTrigger)
    (new_window_ids : List ℕ) (now : ℕ)
    (kept : (commands : Bytes) (app : AppData W) (w : WindowInfo)
      → app.in_rule_dispatch ≡ true
      → (execute commands app w).in_rule_dispatch ≡ true) where
  abbrev nested : Bytes → AppData W → WindowInfo → AppData W
  nested commands app w = and_apply execute trigger new_window_ids now commands app w

  nested_same :
      (commands : Bytes) (app : AppData W) (w : WindowInfo)
      → app.in_rule_dispatch ≡ true
      → nested commands app w ≡ execute commands app w
  nested_same commands app w h =
      skipped execute trigger new_window_ids now (execute commands app w) (kept commands app w h)

  execute_same :
      (app : AppData W) (r : ℕ) (w : WindowInfo) (t : ℕ) (commands : Bytes)
      → execute_rule_match nested app r w t commands ≡ execute_rule_match execute app r w t commands
  unfolding execute_rule_match
  execute_same app r w t commands =
      let (breaker, fires) = rule_breaker_should_fire app.rule_breaker r w.id t in
      ap
        (λ later.
          if not fires
          then record app { rule_breaker = breaker }
          else record later { in_rule_dispatch = app.in_rule_dispatch })
        (nested_same commands (record app { rule_breaker = breaker; in_rule_dispatch = true }) w
          refl)

  check_same :
      (rule : Rule) (r : ℕ) (w : WindowInfo) (allow : Bool) (t : ℕ) (app : AppData W)
      → check_and_run nested rule r w allow t app ≡ check_and_run execute rule r w allow t app
  unfolding check_and_run
  check_same rule r w allow t app =
      elim (Option-cases (check_rule_match rule app.rule_state r app.matching w allow).2) [
        | inl none_fires ↦ rw (none_fires, check_and_run) refl
        | inr (c, e) ↦ rw (e, check_and_run) (execute_same _ r w t c)
      ]

  apply_same :
      (tr : RuleTrigger) (new allow : Bool) (t i r : ℕ) (app : AppData W)
      → apply_rule nested tr new allow t i r app ≡ apply_rule execute tr new allow t i r app
  unfolding apply_rule
  apply_same tr new allow t i r app = elim (Option-cases (get_elem? app.rules_config r)) [
    | inl no_rule ↦ rw (no_rule, apply_rule) refl
    | inr (rule, e) ↦ elim (Option-cases (get_elem? app.windows i)) [
      | inl no_window ↦ rw (e, no_window, apply_rule) refl
      | inr (w, e') ↦
          rw (e, e', apply_rule)
            (ap (λ later. if not (rule_trigger_allows rule tr new) then app else later)
              (check_same rule r w allow t app))
    ]
  ]

  rules_same :
      (tr : RuleTrigger) (new allow : Bool) (t i rounds r : ℕ) (app : AppData W)
      → rules_from nested tr new allow t i rounds r app
        ≡ rules_from execute tr new allow t i rounds r app
  unfolding rules_from
  rules_same tr new allow t i zero r app = refl
  rules_same tr new allow t i (suc rounds) r app =
      elim (Bool-cases (leb (length app.rules_config) r)) [
        | inl done ↦ rw (done, rules_from) refl
        | inr more ↦
            rw (more, rules_from)
              (rules_same tr new allow t i rounds (r + 1) (apply_rule nested tr new allow t i r app)
                ∙ ap (rules_from execute tr new allow t i rounds (r + 1))
                    (apply_same tr new allow t i r app))
      ]

  windows_same :
      (tr : RuleTrigger) (ids : List ℕ) (t rounds i : ℕ) (app : AppData W)
      → windows_from nested tr ids t rounds i app ≡ windows_from execute tr ids t rounds i app
  unfolding windows_from
  windows_same tr ids t zero i app = refl
  windows_same tr ids t (suc rounds) i app = elim (Option-cases (get_elem? app.windows i)) [
    | inl done ↦ rw (done, windows_from) refl
    | inr (w, e) ↦
        let new = exists_in (λ id. id == w.id) ids in
        rw (e, windows_from)
          (windows_same tr ids t rounds (i + 1) (rules_from nested tr new new t i max_rules 0 app)
            ∙ ap (windows_from execute tr ids t rounds (i + 1))
                (rules_same tr new new t i max_rules 0 app))
  ]

  -- While rules are applied, a command may itself apply the rules at its end: the result is that of the
  -- command alone, if the command keeps the mark that rules are being applied.
  pub rules_apply-nested :
      (tr : RuleTrigger) (ids : List ℕ) (t : ℕ) (app : AppData W)
      → rules_apply (and_apply execute trigger new_window_ids now) tr ids t app
        ≡ rules_apply execute tr ids t app
  unfolding rules_apply
  rules_apply-nested tr ids t app =
      ap
        (λ later.
          if leb (length app.rules_config) 0
          then app
          else if app.in_rule_dispatch
          then app
          else later)
        (windows_same tr ids t max_windows 0 app)

-- ===== src/Rules/Config.antt =====
-- src/rules/rules_config.c and rules_toggle.c: the list of rules. The array with its count is the
-- list of the rules; saving and loading are left out.
use cofi.Prelude.{
  ℕ, ℤ, pos, negsuc, Bool, true, false, not, List, [], ◌∷◌, ◌++◌, Bytes, copy_to, length, remove_at,
  leb, if◌then◌else◌,
}

abbrev pub max_rules : ℕ
max_rules = 64

-- `applied` is the window that a rule with `once` has fired for, 0 for none.
pub record Rule : Type 0 where
  pub match_id : ℤ
  pub pattern : Bytes
  pub commands : Bytes
  pub tag : Bytes
  pub once : Bool
  pub new_only : Bool
  pub applied : ℕ

abbrev pub RulesConfig : Type 0
RulesConfig = List Rule

pub init_rules_config : RulesConfig
init_rules_config = []

-- The rules, and whether there was room.
pub add_rule : RulesConfig → Bytes → Bytes → RulesConfig × Bool
add_rule config pattern commands = if leb max_rules (length config) then (config, false) else (
  config
      ++ (record {
        match_id = pos 0;
        pattern = copy_to 256 pattern;
        commands = copy_to 256 commands;
        tag = [];
        once = true;
        new_only = false;
        applied = 0;
      }
          ∷ []),
  true,
)

pub remove_rule : RulesConfig → ℤ → RulesConfig × Bool
remove_rule config (negsuc i) = (config, false)
remove_rule config (pos i) =
    if leb (length config) i then (config, false) else (remove_at config i, true)

pub rule_toggle_once : Rule → Rule
rule_toggle_once rule = record rule { once = not rule.once; applied = 0 }

pub rule_toggle_new_only : Rule → Rule
rule_toggle_new_only rule = record rule { new_only = not rule.new_only }

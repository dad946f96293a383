-- ===== src/Commands/Examples.antt =====
-- Command lines with two commands that are registered.
use mathlib.Core.List.Memᴰ.{head}
use cofi.Prelude.{
  ◌≡◌, refl, Bool, true, false, not, ◌&&◌, List, [], ◌∷◌, none, some, Bytes, codes, is_empty,
  bytes_eq, exists_in, copy_to, arith,
}
use cofi.Commands.Split.{skip_blanks, trim_end}
use cofi.Commands.Segments.{
  visit_command_segments, visit_all, command_segments, trim_whitespace_in_place,
  rule_commands_contain_segment, rule_segments,
}
use cofi.Commands.Segments.Visit.{visit_command_segments-visit_all}
use cofi.Commands.Segments.Rule.{rule_commands_contain_segment-exists_in}
use cofi.Commands.Registry.{CommandSpec, cofi_register_command, cofi_command_for_token}
use cofi.Commands.Registry.Names.{Reachable, start, register, Reachable-for_token}
use cofi.Commands.Parser.{parse_command_for_execution, split_compact_command}
use cofi.Commands.Parser.Words.{IsWord, IsArgument, line, parse_command_for_execution-line}
use cofi.Commands.Parser.Compact.{Fits, LongestSplit, split_compact_command-LongestSplit}

abbrev jump_workspace : CommandSpec
jump_workspace = record {
  primary = some (codes "jw");
  aliases = codes "jump-workspace" ∷ codes "j" ∷ [];
  compact_suffix = some (codes "123456789");
  owner_provider_id = some (codes "core");
}

abbrev close_window : CommandSpec
close_window = record {
  primary = some (codes "cl");
  aliases = codes "close" ∷ [];
  compact_suffix = none;
  owner_provider_id = some (codes "core");
}

abbrev commands : List CommandSpec
commands = jump_workspace ∷ close_window ∷ []

-- Takes two segments at most.
abbrev take_two : List Bytes → Bytes → List Bytes × Bool
take_two [] segment = (segment ∷ [], true)
take_two (s ∷ []) segment = (s ∷ segment ∷ [], true)
take_two (s ∷ t ∷ rest) segment = (s ∷ t ∷ rest, false)

visit_command_segments-visit_all_example :
    visit_command_segments take_two (codes " cl,, jw 2 ,x") []
    ≡ visit_all take_two
        (command_segments (trim_whitespace_in_place (copy_to 512 (codes " cl,, jw 2 ,x"))))
        []
visit_command_segments-visit_all_example =
    visit_command_segments-visit_all take_two (codes " cl,, jw 2 ,x") []

rule_commands_contain_segment-exists_in_example :
    rule_commands_contain_segment (codes "cl , jw 2") (codes "cl") ≡ (
      not (is_empty (codes "cl"))
      && exists_in (bytes_eq (codes "cl")) (rule_segments (codes "cl , jw 2")))
rule_commands_contain_segment-exists_in_example =
    rule_commands_contain_segment-exists_in (codes "cl , jw 2") (codes "cl")

registered : Reachable commands
unfolding cofi_register_command bytes_eq
registered =
    register (jump_workspace ∷ []) close_window (some 1)
      (register [] jump_workspace (some 0) start refl) refl

Reachable-for_token_example : cofi_command_for_token commands (codes "close") ≡ some close_window
unfolding bytes_eq
Reachable-for_token_example =
    Reachable-for_token commands 1 close_window (codes "close") registered refl refl

jump-IsWord : IsWord (codes "jump-workspace")
jump-IsWord = record { word_there = refl; no_blank = refl }

two-IsArgument : IsArgument (codes "2 x")
unfolding skip_blanks trim_end
two-IsArgument = record { there = refl; front = refl; back = refl }

parse_command_for_execution-line_example :
    parse_command_for_execution commands (line (codes "jump-workspace") (codes "2 x")) 128 256
    ≡ some (codes "jw", codes "2 x")
unfolding bytes_eq
parse_command_for_execution-line_example =
    parse_command_for_execution-line commands 0 jump_workspace (codes "jump-workspace") (codes "jw")
      (codes "2 x") 128 256 registered refl refl refl jump-IsWord two-IsArgument (omega arith)
      (omega arith) (omega arith) (omega arith)

j-Fits : Fits commands (codes "jw12") (codes "jw") (codes "jw")
j-Fits = record {
  spec = jump_workspace;
  suffix = codes "123456789";
  registered = head refl;
  primary_is = refl;
  suffix_is = refl;
  is_name = head refl;
  fits = refl;
}

split_compact_command-LongestSplit_example :
    LongestSplit commands
      (codes "jw12")
      128
      256
      (codes "jw")
      (split_compact_command commands (codes "jw12") 128 256 (codes "jw12", []))
unfolding bytes_eq
split_compact_command-LongestSplit_example =
    split_compact_command-LongestSplit commands (codes "jw12") 128 256 (codes "jw12", [])
      (codes "jw") (codes "jw") refl j-Fits (omega arith)

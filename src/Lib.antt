-- ===== src/Lib.antt =====
-- Models of cofi, a window switcher for X11 written in C, and the theorems about them.
--
-- The program reads the windows from the X server, orders and filters them, shows them in tabs and lets
-- the user select one. A window is recognised again, after it was closed or the program was started
-- anew, by the registry of match entries; slots, names and rules hold the numbers of entries.
--
-- The files and the code they model (paths from the root of the repository):
--   Windows             src/x11/window_info.h: the record of a window.
--   Matching.Wildcard   src/matching/window_matcher.c: title patterns and the fuzzy comparison. Language
--                       has the language of a pattern, Fuzzy the laws of the comparison.
--   Matching.Registry   src/matching/match_entry.c: the registry, one function per function of the code.
--                       Invariant, Counter and Runs are about all calls, the others about a call each.
--   Matching.Fzf        src/matching/fzf_algo.c: the search for a query in a text, and its score. Search is
--                       about when there is one, Bounds how great it is, Prefix what it ignores.
--   Matching.Tier       src/matching/tier_score.c: the bonus for the starts of words, and the two tiers.
--   Slots               src/core/slot_store/slot_store.c: texts kept under a tab and a slot key.
--   Harpoon             src/harpoon/harpoon.c and harpoon_config.c: window slots on the registry and the
--                       slot store. Decimal has the numbers as `snprintf` and `strtol` treat them.
--   Names               src/names/names_store.c: custom names under the numbers of entries.
--   Rules               src/rules/rules.c; Config: rules_config.c and rules_toggle.c; Replay:
--                       rules_replay.c. Breaker is the limit on the rate at which a rule fires,
--                       Dispatch the run of the rules, rules_dispatch.c; Replay and Dispatch take what a
--                       command does as a parameter.
--   History             src/core/history/history.c: the order of the windows.
--   Selection           src/core/selection/selection.c: the selected row and the scroll offset.
--   Hotkeys             src/daemon/hotkey_config.c: the table of hot keys and its command line.
--   Collection          src/core/app/matching_gc.c: the removal of entries without a reference, over the
--                       registry, slots, names, layouts and rules.
--   Geometry            src/geom: Layouts is layout_store.c, with Map and Refinement for its effect as a map,
--                       Planner is geometry_planner.c.
--   Commands            src/commands: Registry is command_registry.c, Parser command_parser.c. Split has
--                       the loop over the segments of a line, which src/rules/rules_config.c also has,
--                       and a reference for it; Segments has the two users of the segments.
--   Workspace           src/harpoon/workspace_slots.c: Rects has the rectangles, Visible what shows of a
--                       window, Largest its largest piece, Slots the candidates, their order and slots;
--                       there Shown tells which windows show, Lookup is about the window of a slot and
--                       Columns about the groups in the order.
--   Prelude, Glib       what the others share: tests, lists, C integers and strings, and what the code
--                       uses of GLib, as a record of functions with their documented behaviour.
-- An Examples module applies the theorems of its part at concrete values.
--
-- A C array with its count is the list of its live elements; -1 for an index that is not found is
-- `none`. A function that changes a structure returns the new one, with its result in a pair. A string
-- is the list of its bytes, and a copy into a buffer cuts it to the size of the buffer. Identifiers and
-- indices that may be negative are signed; numbers of X windows are not. The registry and the list of
-- windows that a slot manager points to are the field `shared`, `none` before the pointers are set. The
-- answers of the X server, the rows of a provider and the clock are arguments.
--
-- Loops recurse over the list, or on a number of rounds where the code jumps: `match_rounds` has one
-- round for each byte of the pattern, since each round takes at least one from it; `gc_from` and
-- `prune_from` have one for each entry, since each round passes or removes one. The loops over the
-- segments of a line have one round for each byte and one more, since a segment takes a byte. The
-- loops over rules and windows, whose lists a command may change, have as many as the arrays have room.
--
-- The coordinates of a screen are counted from the least `int`, which keeps their order and differences;
-- `qsort` and the comparison of two doubles are parameters there. Scores of `fzf` are natural numbers,
-- floored at 0 as in the code, and the 16 bits of its `int16_t` are not written out.
--
-- A counter of type `int` goes from the largest `int` to the least one, which C leaves undefined.
--
-- Left out: NULL arguments, which the types exclude, the log, the files (JSON and the slot file),
-- drawing (GTK) and requests to the X server. The other parts of the
-- program, such as the handlers of commands and the providers, have no model.
pub mod Prelude
pub mod Windows
pub mod Glib
pub mod Matching
pub mod Slots
pub mod Harpoon
pub mod Names
pub mod Rules
pub mod History
pub mod Selection
pub mod Hotkeys
pub mod Geometry
pub mod Collection
pub mod Commands
pub mod Workspace

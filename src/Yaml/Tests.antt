-- ===== src/Yaml/Tests.antt =====
-- A compiled filter on small inputs.
mod Invocations
use cmdshape.Base.{
  text_eq, All, pos, length, select, arith, true, false, ◌||◌, List, [], ◌∷◌, ◌++◌, none, some,
  Text, codes, ◌≡◌, refl, ◌⊎◌, if◌then◌else◌,
}
use cmdshape.Contracts.{Context, keep, ignore, plain}
use cmdshape.Yaml.Model.{
  GroupItem, Variables, Matcher, Max, Rules, Scope, Group, boundary, When, CommandChanges, Case,
}
use cmdshape.Yaml.Lines.{
  split_record_delimiter, base_action_for_line, replace_line, replacing, any_given,
}
use cmdshape.Yaml.Lines.Delimiter.{split_record_delimiter_lem}
use cmdshape.Yaml.Lines.Verdict.{one_matches, base_action_for_line-cases}
use cmdshape.Yaml.Groups.{collect_group_line}
use cmdshape.Yaml.Groups.Stored.{IsStored, collect_group_line-IsStored}
use cmdshape.Yaml.Arguments.{filter_args, apply_command_mutations}
use cmdshape.Yaml.Arguments.Kept.{apply_command_mutations-IsExtension}
use cmdshape.Yaml.Render.{render_items}
use cmdshape.Yaml.Render.Limit.{IsLimited, render_items-IsLimited}
use cmdshape.Yaml.Render.Summary.{RenderedLine, unmarked, collect_omitted_group_summaries}
use cmdshape.Yaml.Render.Summary.Omitted.{
  omitted_of, is_line_of, collect_omitted_group_summaries_lem,
}
use cmdshape.Yaml.Render.Summary.{apply_rendered_max}
use cmdshape.Yaml.Render.Summary.Ended.{IsEnded, apply_rendered_max-IsEnded}
use cmdshape.Yaml.Exit.{on_stdout_exit_actions}
use cmdshape.Yaml.Exit.Actions.{IsRewrite, on_stdout_exit_actions-IsRewrite}
use cmdshape.Yaml.Cases.{invocation_key, YamlFilter, prepare_invocation, case_for_args}
use cmdshape.Yaml.Cases.Fresh.{IsFresh, prepare_invocation-IsFresh}
use cmdshape.Yaml.Cases.Prepared.{
  prepare_invocation-prepare_invocation, IsChoice, case_for_args-IsChoice,
}

abbrev ok_line : Text
ok_line = codes "ok pkg" ++ (13 ∷ 10 ∷ [])

abbrev starting : Text → Matcher
starting t = record { regex = none; starts_with = t; contains_part = []; ends_with = [] }

abbrev two_at_most : Max
two_at_most = record { count = 2; print_text = codes "{{value}} more"; groups_summary = none }

-- Keeps nothing for certain, shortens the lines that begin with `ok`, skips those with `#`.
abbrev rules : Rules
rules = record {
  replace_rules =
      record {
        regex = none;
        starts_with = codes "ok";
        contains_part = [];
        ends_with = [];
        replacement = codes "ok";
        on_match = record { variable = codes "n"; increment = 1 } ∷ [];
      }
      ∷ [];
  keep_rules = [];
  skip_rules = starting (codes "#") ∷ [];
  max = some two_at_most;
}

-- Opens a section at each line that begins with `==`.
abbrev sections : Group
sections = record {
  mode = boundary;
  regex = none;
  starts_with = codes "==";
  starts_regex = none;
  variables = [];
  group_by = [];
  initially = none;
  line_rules = none;
  finally = none;
  items = [];
  sections = [];
}

abbrev pub scope : Scope
scope = record { rules = rules; hidden = 0; groups = sections ∷ []; active_boundary = none }

abbrev four_lines : List Text
four_lines = ok_line ∷ codes "# note" ∷ codes "FAIL a" ∷ codes "FAIL b" ∷ []

collect_group_line-IsStored_example :
    IsStored scope
      (split_record_delimiter (codes "== a")).0
      (collect_group_line scope (codes "== a"))
collect_group_line-IsStored_example = collect_group_line-IsStored scope (codes "== a") tt

abbrev pub any_command : When
any_command = record {
  first_is = [];
  first_in = [];
  have_any = [];
  lack_any = [];
  have_sequence = [];
  have_short_flag = [];
  not_have_short_flag = [];
  have_all_short_flags = [];
  not_have_all_short_flags = [];
  positionals_lack_any = [];
  no_positionals = false;
}

abbrev pub test_command : When
test_command = record any_command { first_is = codes "test" }

abbrev pub changes : CommandChanges
changes = record {
  append_if_missing = codes "--json" ∷ [];
  append_if_no_positionals = codes "./..." ∷ [];
  add_short_flags = codes "-v" ∷ [];
}

apply_command_mutations-IsExtension_example :
    (added : List Text) × (apply_command_mutations
        (codes "go" ∷ codes "test" ∷ [])
        test_command
        []
        (some changes)
      ≡ some ((codes "go" ∷ codes "test" ∷ []) ++ added))
apply_command_mutations-IsExtension_example =
    apply_command_mutations-IsExtension (codes "go") (codes "test" ∷ []) test_command []
      (some changes)

abbrev items : List GroupItem
items =
    record { line = codes "a"; vars = [] }
    ∷ record { line = codes "# b"; vars = [] }
    ∷ record { line = codes "c"; vars = [] }
    ∷ record { line = codes "d"; vars = [] }
    ∷ []

render_items-IsLimited_example : IsLimited 2 0 4 (render_items (some rules) unmarked items none 0)
render_items-IsLimited_example =
    render_items-IsLimited rules two_at_most unmarked items refl none 0 (omega arith)

abbrev item_of : Text → RenderedLine
item_of key = record { text = codes "x"; group_key = key; group_item = true }

abbrev left_out : List RenderedLine
left_out =
    item_of (codes "a") ∷ item_of (codes "b") ∷ unmarked (codes "y") ∷ item_of (codes "b") ∷ []

collect_omitted_group_summaries_lem_example :
    omitted_of (codes "b") (collect_omitted_group_summaries left_out)
    ≡ length (select (is_line_of (codes "b")) left_out)
collect_omitted_group_summaries_lem_example =
    collect_omitted_group_summaries_lem (codes "b") left_out

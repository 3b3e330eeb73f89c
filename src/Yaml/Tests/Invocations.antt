-- ===== src/Yaml/Tests/Invocations.antt =====
-- The invocations of a small filter.
use cmdshape.Base.{text_eq, All, pos, false, List, [], ◌∷◌, none, some, Text, codes, ◌≡◌, refl}
use cmdshape.Contracts.{Context}
use cmdshape.Yaml.Cases.Prepared.{IsChoice, case_for_args-IsChoice}
use cmdshape.Yaml.Model.{When, Case}
use cmdshape.Yaml.Exit.{on_stdout_exit_actions}
use cmdshape.Yaml.Exit.Actions.{IsRewrite, on_stdout_exit_actions-IsRewrite}
use cmdshape.Yaml.Cases.{case_for_args, invocation_key, YamlFilter, prepare_invocation}
use cmdshape.Yaml.Cases.Fresh.{IsFresh, prepare_invocation-IsFresh}
use cmdshape.Yaml.Tests.{changes, scope, any_command, test_command}

abbrev case_when : When → Case
case_when w = record {
  id = codes "test";
  is_passthrough = false;
  when = w;
  variables = [];
  initials = [];
  command = some changes;
  out = none;
  err = none;
  shared = some scope;
  on_exit = none;
}

abbrev go_filter : YamlFilter
go_filter = record {
  filter_name = codes "go";
  cases = case_when test_command ∷ case_when any_command ∷ [];
  flags_consuming_next_arg = [];
  active_args = [];
  active_case = none;
}

abbrev go_build : List Text
go_build = codes "go" ∷ codes "build" ∷ []

abbrev at_exit : Context
at_exit = record {
  args = codes "go" ∷ codes "test" ∷ [];
  buffered_count = λ s. 1;
  buffered_lines = λ s. codes "ok" ∷ [];
  exit_code = pos 0;
}

on_stdout_exit_actions-IsRewrite_example :
    All IsRewrite (on_stdout_exit_actions go_filter at_exit).0
on_stdout_exit_actions-IsRewrite_example = on_stdout_exit_actions-IsRewrite go_filter at_exit

abbrev counting : YamlFilter
counting = record go_filter {
  cases =
      record (case_when any_command) {
        variables = (codes "n", codes "4") ∷ [];
        initials = (codes "n", codes "0") ∷ [];
        shared = some (record scope { hidden = 3 });
      }
      ∷ [];
}

build_is_new : text_eq counting.active_args (invocation_key go_build) ≡ false
unfolding invocation_key
build_is_new = refl

prepare_invocation-IsFresh_example : All IsFresh (prepare_invocation go_build counting).cases
prepare_invocation-IsFresh_example =
    prepare_invocation-IsFresh go_build counting ((refl, tt), tt) build_is_new

case_for_args-IsChoice_example :
    IsChoice [] (codes "build" ∷ []) go_filter.cases 0 (case_for_args go_filter go_build)
case_for_args-IsChoice_example = case_for_args-IsChoice go_filter go_build

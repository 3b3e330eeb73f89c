-- ===== src/Yaml/Exit.antt =====
-- internal/filters/yaml/yaml_filter.go: the actions at the exit of a command, and the filter as a
-- whole.
pub mod Actions
use mathlib.Core.Option
use cmdshape.Base.{
  ℕ, zero, suc, Bool, true, false, ◌&&◌, List, [], ◌∷◌, ◌++◌, map, Option, none, some, Text, ℤ,
  is_empty, text_eq, join, if◌then◌else◌,
}
use cmdshape.Contracts.{
  Stream, combined, stdout, stderr, Action, keep, replace, plain, Context, Filter,
}
use cmdshape.Yaml.Model.{Variables, OnExit, Group, Scope, Rules, Case}
use cmdshape.Yaml.Template.{render_template}
use cmdshape.Yaml.Cases.{YamlFilter, reset_group, prepare_invocation, get_elem?, on_line}
use cmdshape.Yaml.Render.{should_render_finally, render_groups, no_lines}
use cmdshape.Yaml.Render.Summary.{
  newline, ends_line, end_line, render_max_print, apply_rendered_max,
}

unfoldable pub render_scope_max_overflow : Scope → Text
render_scope_max_overflow scope = elim scope.rules.max [
  | none ↦ []
  | some max ↦ elim scope.hidden [ zero ↦ [] | suc n ↦ render_max_print max.print_text (suc n) [] ]
]

-- The output with its last line ended, if there is any.
abbrev pub end_output : Text → Text
end_output output = if is_empty output then output else end_line output

unfoldable pub append_scope_max_overflow : Text → Scope → Text
append_scope_max_overflow output scope =
    let overflow = render_scope_max_overflow scope in
    if is_empty overflow then output else end_output output ++ overflow

unfoldable pub render_stdout_exit_output : Text → Scope → ℤ → Text
render_stdout_exit_output output scope code =
    let rendered = render_groups scope.groups code in
    if no_lines rendered
    then append_scope_max_overflow output scope
    else apply_rendered_max rendered scope.rules.max

unfoldable pub append_case_exit_print : Text → OnExit → Variables → ℤ → Text
append_case_exit_print output on_exit variables code =
    let printed = render_template on_exit.print_text variables in
    if should_render_finally code
    then if is_empty printed then output else end_line (end_output output ++ printed)
    else output

unfoldable pub exit_action_for_output : Text → Stream → Action
exit_action_for_output output stream =
    if is_empty output
    then plain keep
    else record { kind = replace; stream = stream; output = output; replace_count = 0 }

-- The print of the case at the exit, if it has one.
abbrev pub with_case_print : Text → Case → ℤ → Text
with_case_print output c code = elim c.on_exit [
  | none ↦ output
  | some on_exit ↦ append_case_exit_print output on_exit c.variables code
]

abbrev pub is_combined : Stream → Bool
is_combined combined = true
is_combined _ = false

unfoldable pub render_scoped_exit_action : Context → Stream → Scope → Case → Bool → Action
render_scoped_exit_action context stream scope c include_finally =
    let buffered = join (context.buffered_lines stream) [] in
    let rendered = render_stdout_exit_output buffered scope context.exit_code in
    let output =
      if include_finally then with_case_print rendered c context.exit_code else rendered in
    if is_combined stream && text_eq output buffered
    then plain keep
    else exit_action_for_output output stream

unfoldable pub render_unscoped_exit_action : Context → Case → Action
render_unscoped_exit_action context c =
    exit_action_for_output
      (with_case_print (join (context.buffered_lines stdout) []) c context.exit_code) stdout

unfoldable pub render_stream_exit_actions : Context → Case → List Action
render_stream_exit_actions context c =
    elim c.out [
      | none ↦ []
      | some scope ↦ render_scoped_exit_action context stdout scope c true ∷ []
    ]
    ++ elim c.err [
      | none ↦ []
      | some scope ↦
          render_scoped_exit_action context stderr scope c
            (elim c.out [ none ↦ true | some s ↦ false ])
          ∷ []
    ]

-- The actions of a case that is no passthrough.
unfoldable pub case_exit_actions : Context → Case → List Action
case_exit_actions context c = elim c.shared [
  | some scope ↦ render_scoped_exit_action context combined scope c true ∷ []
  | none ↦ elim c.out [
    | some out ↦ render_stream_exit_actions context c
    | none ↦ elim c.err [
      | some err ↦ render_stream_exit_actions context c
      | none ↦ render_unscoped_exit_action context c ∷ []
    ]
  ]
]

-- `OnStdoutExitActions`. The counters that the rendering leaves in the variables of the items are
-- not kept: the next invocation drops the items before anything reads them.
unfoldable pub on_stdout_exit_actions : YamlFilter → Context → List Action × YamlFilter
on_stdout_exit_actions f context =
    let prepared = prepare_invocation context.args f in
    (
      elim prepared.active_case [
        | none ↦ plain keep ∷ []
        | some i ↦ elim (get_elem? prepared.cases i) [
          | none ↦ plain keep ∷ []
          | some c ↦ if c.is_passthrough then plain keep ∷ [] else case_exit_actions context c
        ]
      ],
      prepared,
    )

unfoldable pub on_stdout_exit : YamlFilter → Context → Action × YamlFilter
on_stdout_exit f context =
    let (actions, after) = on_stdout_exit_actions f context in
    (elim actions [ [] ↦ plain keep | first ∷ rest ↦ first ], after)

abbrev pub clone_scope : Scope → Scope
clone_scope c = record c { hidden = 0; active_boundary = none; groups = map reset_group c.groups }

unfoldable pub clone_case : Case → Case
clone_case c = record c {
  shared = Option.map clone_scope c.shared;
  out = Option.map clone_scope c.out;
  err = Option.map clone_scope c.err;
}

unfoldable pub cloned_filter : YamlFilter → YamlFilter
cloned_filter f = record f { cases = map clone_case f.cases; active_args = []; active_case = none }

-- The filter as the engine calls it.
unfoldable pub yaml_filter : Filter YamlFilter
yaml_filter = record {
  on_stdout = on_line stdout;
  on_stderr = on_line stderr;
  on_stdout_exit = on_stdout_exit;
  on_stdout_exit_actions = some on_stdout_exit_actions;
  clone_filter = some cloned_filter;
}

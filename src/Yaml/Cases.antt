-- ===== src/Yaml/Cases.antt =====
-- internal/filters/yaml/yaml_filter.go: the case an invocation falls under, and its state.
pub mod Prepared
pub mod Fresh
use cmdshape.Base.{
  ℕ, zero, suc, Bool, true, false, List, [], ◌∷◌, ◌++◌, Option, none, some, Text, text_eq, join,
  map, if◌then◌else◌,
}
use mathlib.Core.Option
use cmdshape.Contracts.{Stream, Action, Context, emit, ignore, plain, Command, args_for_matching}
use cmdshape.Operations.{scope_for_stream}
use cmdshape.Yaml.Model.{Scope, Group, Case, ActiveBoundary}
use cmdshape.Yaml.Template.{copy}
use cmdshape.Yaml.Lines.{action_for_line, is_given}
use cmdshape.Yaml.Groups.{collect_group_line, modify_at}
use cmdshape.Yaml.Arguments.{filter_args, matches_when_arguments, apply_command_mutations}

-- `activeCase` is a pointer into `cases`: here its index, none where `activeMatch` is false.
pub record YamlFilter : Type 0 where
  pub filter_name : Text
  pub cases : List Case
  pub flags_consuming_next_arg : List Text
  pub active_args : Text
  pub active_case : Option ℕ

abbrev pub reset_group : Group → Group
reset_group g = record g { items = []; sections = [] }

unfoldable pub reset_scope : Scope → Scope
reset_scope c = record c { hidden = 0; active_boundary = none; groups = map reset_group c.groups }

unfoldable pub reset_case : Case → Case
reset_case c = record c {
  variables = copy c.variables c.initials;
  shared = Option.map reset_scope c.shared;
  out = Option.map reset_scope c.out;
  err = Option.map reset_scope c.err;
}

-- The loop of `caseForArgs` from the case at an index.
unfoldable pub case_from : ℕ → List Case → List Text → List Text → Option ℕ
case_from i [] flags filtered = none
case_from i (c ∷ cs) flags filtered =
    let rest = case_from (suc i) cs flags filtered in
    if matches_when_arguments c.when flags filtered then some i else rest

unfoldable pub case_for_args : YamlFilter → List Text → Option ℕ
case_for_args f args = case_from 0 f.cases f.flags_consuming_next_arg (filter_args args)

unfoldable pub invocation_key : List Text → Text
invocation_key args = join args (0 ∷ [])

unfoldable pub prepare_invocation : List Text → YamlFilter → YamlFilter
prepare_invocation args f =
    if text_eq f.active_args (invocation_key args)
    then f
    else (let reset = record f {
      active_args = invocation_key args;
      cases = map reset_case f.cases;
    } in
        record reset { active_case = case_for_args reset args })

unfoldable pub get_elem? : {A : Type 0} → List A → ℕ → Option A
get_elem? [] i = none
get_elem? (x ∷ xs) zero = some x
get_elem? (x ∷ xs) (suc i) = get_elem? xs i

-- A scope of a case, with the case that has another scope in its place.
unfoldable pub scope_of_case : Case → Stream → Option (Scope × (Scope → Case))
scope_of_case c stream =
    scope_for_stream stream
      (Option.map (λ (s : Scope). (s, λ (t : Scope). record c { shared = some t })) c.shared)
      (Option.map (λ (s : Scope). (s, λ (t : Scope). record c { out = some t })) c.out)
      (Option.map (λ (s : Scope). (s, λ (t : Scope). record c { err = some t })) c.err)

-- `onStream` on the active case.
unfoldable pub case_on_stream : Case → Stream → Text → Context → Action × Case
case_on_stream c stream line context =
    if c.is_passthrough then (plain emit, c) else elim (scope_of_case c stream) [
      | none ↦ (plain emit, c)
      | some (scope, put) ↦ elim (collect_group_line scope line) [
        | some taken ↦ (plain ignore, put taken)
        | none ↦
            let (action, after, variables) =
              action_for_line scope line (context.buffered_count stream) c.variables in
            (action, record (put after) { variables = variables })
      ]
    ]

unfoldable pub on_stream : YamlFilter → Stream → Text → Context → Action × YamlFilter
on_stream f stream line context = elim f.active_case [
  | none ↦ (plain emit, f)
  | some i ↦ elim (get_elem? f.cases i) [
    | none ↦ (plain emit, f)
    | some c ↦
        let (action, after) = case_on_stream c stream line context in
        (action, record f { cases = modify_at i (λ (_ : Case). after) f.cases })
  ]
]

unfoldable pub on_line : Stream → YamlFilter → Text → Context → Action × YamlFilter
on_line stream f line context = on_stream (prepare_invocation context.args f) stream line context

-- `PrepareCommand`: the command's arguments; `none` where the source panics.
unfoldable pub prepare_args : YamlFilter → List Text → Option (List Text)
prepare_args f args = elim (case_for_args f args) [
  | none ↦ some args
  | some i ↦ elim (get_elem? f.cases i) [
    | none ↦ some args
    | some c ↦ apply_command_mutations args c.when f.flags_consuming_next_arg c.command
  ]
]

unfoldable pub reports_passthrough : YamlFilter → Command → Bool
reports_passthrough f command = elim (case_for_args f (args_for_matching command)) [
  | none ↦ false
  | some i ↦ elim (get_elem? f.cases i) [ none ↦ false | some c ↦ c.is_passthrough ]
]

unfoldable pub dispatch : YamlFilter → Command → Text
dispatch f command = elim (case_for_args f (args_for_matching command)) [
  | none ↦ f.filter_name
  | some i ↦ elim (get_elem? f.cases i) [
    | none ↦ f.filter_name
    | some c ↦ if is_given c.id then f.filter_name ++ (b'|' ∷ c.id) else f.filter_name
  ]
]

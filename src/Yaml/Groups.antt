-- ===== src/Yaml/Groups.antt =====
-- internal/filters/yaml/yaml_filter.go: the lines that a scope's groups take.
pub mod Counted
pub mod Stored
use cmdshape.Base.{
  ℕ, zero, suc, Bool, true, false, ◌&&◌, List, [], ◌∷◌, ◌++◌, Option, none, some, Text, length,
  is_empty, has_prefix, text_eq, if◌then◌else◌,
}
use cmdshape.Yaml.Model.{
  Regex, Variables, Variable, GroupItem, BoundarySection, GroupMode, collecting, boundary,
  ActiveBoundary, Group, Scope,
}
use cmdshape.Yaml.Template.{lookup, assign, render_template}
use cmdshape.Yaml.Lines.{split_record_delimiter, is_given}

-- The named groups of a match; both lists begin with the whole match. The source would panic where
-- there are fewer matches than names, which `regexp` rules out; the walk ends there.
unfoldable pub assign_captures : List Text → List Text → Variables → Variables
assign_captures (name ∷ names) (value ∷ values) captures =
    assign_captures names values (if is_empty name then captures else assign captures name value)
assign_captures _ _ captures = captures

unfoldable pub captures_of : List Text → List Text → Variables
captures_of (whole ∷ names) (match ∷ values) = assign_captures names values []
captures_of _ _ = []

-- The value of one variable of a group.
unfoldable pub resolve_variable : Variable → Variables → Text
resolve_variable v captures =
    let value = if is_given v.regex_group then lookup captures v.regex_group else v.initial_value in
    if is_empty value then v.default_value else value

unfoldable pub resolve_onto : List Variable → Variables → Variables → Variables
resolve_onto [] captures values = values
resolve_onto (v ∷ vs) captures values =
    resolve_onto vs captures (assign values v.name (resolve_variable v captures))

unfoldable pub resolve_variables : Group → Variables → Variables
resolve_variables g captures = resolve_onto g.variables captures []

unfoldable pub add_item :
    List (Text × List GroupItem) → Text → GroupItem → List (Text × List GroupItem)
add_item [] key item = (key, item ∷ []) ∷ []
add_item ((k, items) ∷ rest) key item =
    let behind = add_item rest key item in
    if text_eq k key then (k, items ++ item ∷ []) ∷ rest else (k, items) ∷ behind

-- `collect`: the group with the line in it, `none` where it does not match.
unfoldable pub collect : Group → Text → Option Group
collect g content = elim g.regex [
  | none ↦ none
  | some re ↦ elim (re.find_string_submatch content) [
    | none ↦ none
    | some found ↦
        let values = resolve_variables g (captures_of re.subexp_names found) in
        some (record g {
          items =
              add_item g.items (render_template g.group_by values)
                (record { line = content; vars = values });
        })
  ]
]

unfoldable pub match_boundary_start : Group → Text → Option Variables
match_boundary_start g content = elim g.starts_regex [
  | some re ↦ elim (re.find_string_submatch content) [
    | none ↦ none
    | some found ↦ some (resolve_variables g (captures_of re.subexp_names found))
  ]
  | none ↦
      if is_given g.starts_with
      then if has_prefix content g.starts_with then some (resolve_variables g []) else none
      else none
]

unfoldable pub starts_here : Group → Text → Option Variables
starts_here g content = elim g.mode [
  | collecting ↦ none
  | boundary ↦ match_boundary_start g content
]

abbrev pub open_section : Variables → Group → Group
open_section values g = record g {
  sections = g.sections ++ record { vars = values; items = [] } ∷ [];
}

-- The loop of `startBoundaryGroup` from the group at an index: the groups with the section opened,
-- and where it is.
unfoldable pub start_from : ℕ → List Group → Text → Option (List Group × ActiveBoundary)
start_from i [] content = none
start_from i (g ∷ gs) content = elim (starts_here g content) [
  | some values ↦
      some
        (open_section values g ∷ gs, record { group_index = i; section_index = length g.sections })
  | none ↦ elim (start_from (suc i) gs content) [
    | some (rest, active) ↦ some (g ∷ rest, active)
    | none ↦ none
  ]
]

unfoldable pub start_boundary_group : Scope → Text → Option Scope
start_boundary_group c content = elim (start_from 0 c.groups content) [
  | some (groups, active) ↦ some (record c { groups = groups; active_boundary = some active })
  | none ↦ none
]

-- The change of an element at an index; out of range, where the source panics, there is none.
unfoldable pub modify_at : {A : Type 0} → ℕ → (A → A) → List A → List A
modify_at i f [] = []
modify_at zero f (x ∷ xs) = f x ∷ xs
modify_at (suc i) f (x ∷ xs) = x ∷ modify_at i f xs

abbrev pub add_line : Text → BoundarySection → BoundarySection
add_line content s = record s { items = s.items ++ record { line = content; vars = s.vars } ∷ [] }

abbrev pub add_to_section : ℕ → Text → Group → Group
add_to_section j content g = record g { sections = modify_at j (add_line content) g.sections }

unfoldable pub append_boundary_line : Scope → Text → Option Scope
append_boundary_line c content = elim c.active_boundary [
  | none ↦ none
  | some active ↦ some (record c {
    groups = modify_at active.group_index (add_to_section active.section_index content) c.groups;
  })
]

unfoldable pub collects_here : Group → Text → Option Group
collects_here g content = elim g.mode [ boundary ↦ none | collecting ↦ collect g content ]

-- The first group that collects the line.
unfoldable pub collect_first : List Group → Text → Option (List Group)
collect_first [] content = none
collect_first (g ∷ gs) content = elim (collects_here g content) [
  | some g' ↦ some (g' ∷ gs)
  | none ↦ elim (collect_first gs content) [ some rest ↦ some (g ∷ rest) | none ↦ none ]
]

unfoldable pub collect_in_groups : Scope → Text → Option Scope
collect_in_groups c content = elim (collect_first c.groups content) [
  | some groups ↦ some (record c { groups = groups })
  | none ↦ none
]

unfoldable pub take_line : Scope → Text → Option Scope
take_line c content = elim (start_boundary_group c content) [
  | some started ↦ some started
  | none ↦ elim (append_boundary_line c content) [
    | some appended ↦ some appended
    | none ↦ collect_in_groups c content
  ]
]

abbrev pub has_no_group : List Group → Bool
has_no_group [] = true
has_no_group (g ∷ gs) = false

-- `collectGroupLine`: the scope that took the line, `none` where no group does.
unfoldable pub collect_group_line : Scope → Text → Option Scope
collect_group_line c line =
    if has_no_group c.groups then none else take_line c (split_record_delimiter line).0

-- ===== src/Yaml/Render.antt =====
-- internal/filters/yaml/yaml_filter.go: what the groups of a scope print when the command has ended.
pub mod Summary
pub mod Limit
use cmdshape.Base.{
  ℕ, zero, suc, ◌+◌, Bool, true, false, ◌&&◌, List, [], ◌∷◌, ◌++◌, Option, none, some, Text, ℤ, pos,
  negsuc, is_empty, trim_right, ◌==◌, if◌then◌else◌,
}
use cmdshape.Contracts.{ActionKind, keep, emit, ignore, replace}
use cmdshape.Yaml.Model.{
  Variables, Rules, GroupItem, BoundarySection, GroupMode, collecting, boundary, OnExit, Group, Max,
}
use cmdshape.Yaml.Template.{render_template}
use cmdshape.Yaml.Lines.{base_action_for_line, is_ignore, at_max}
use cmdshape.Yaml.Render.Summary.{RenderedLine, unmarked, render_max_print, text_leb}

abbrev pub is_newline : ℕ → Bool
is_newline c = c == 10

-- What becomes of an item: its text, nothing, or one more line beyond the limit.
pub data ItemResult : Type 0 where
  shown : Text → ItemResult
  dropped limited : ItemResult

-- `renderGroupItem`, with the item's variables behind it.
unfoldable pub render_group_item : Option Rules → Text → Variables → ℕ → ItemResult × Variables
render_group_item none line vars emitted = (shown line, vars)
render_group_item (some rules) line vars emitted =
    let (action, after) = base_action_for_line rules line (trim_right is_newline line) vars in
    let text : ItemResult = elim action.kind [
      | replace ↦ shown action.output
      | keep ↦ shown line
      | emit ↦ shown line
      | ignore ↦ dropped
    ] in
    if is_ignore action.kind
    then (dropped, after)
    else if at_max rules.max emitted
    then (limited, after)
    else (text, after)

-- `vars` is what a section's shared variables are behind its items.
pub record RenderedItems : Type 0 where
  pub items : List RenderedLine
  pub hidden : ℕ
  pub vars : Option Variables

abbrev pub add_result : (Text → RenderedLine) → ItemResult → RenderedItems → RenderedItems
add_result mark (shown t) r = record r { items = mark t ∷ r.items }
add_result mark dropped r = r
add_result mark limited r = record r { hidden = suc r.hidden }

abbrev pub count_shown : ItemResult → ℕ → ℕ
count_shown (shown t) n = suc n
count_shown dropped n = n
count_shown limited n = n

-- The loop of `renderGroupItems`. The items of a section share one map, given by `shared`; those of
-- a collected group have a map each.
unfoldable pub render_items :
    Option Rules → (Text → RenderedLine) → List GroupItem → Option Variables → ℕ → RenderedItems
render_items rules mark [] shared emitted = record { items = []; hidden = 0; vars = shared }
render_items rules mark (item ∷ items) shared emitted =
    let (result, after) =
      render_group_item rules item.line (elim shared [ some v ↦ v | none ↦ item.vars ]) emitted in
    add_result mark result (
      render_items rules mark items (elim shared [ some v ↦ some after | none ↦ none ])
        (count_shown result emitted))

unfoldable pub render_group_stage : Option OnExit → Variables → List RenderedLine
render_group_stage none vars = []
render_group_stage (some stage) vars =
    let printed = render_template stage.print_text vars in
    if is_empty printed then [] else unmarked printed ∷ []

abbrev pub should_render_finally : ℤ → Bool
should_render_finally (pos n) = n == 0
should_render_finally (negsuc n) = false

unfoldable pub render_group_final_stage : Option OnExit → Variables → ℤ → List RenderedLine
render_group_final_stage stage vars code =
    if should_render_finally code then render_group_stage stage vars else []

-- The line that tells how many lines the limit of the lines has hidden, if it is printed.
unfoldable pub limit_line : Option Rules → ℕ → List RenderedLine
limit_line none hidden = []
limit_line (some rules) hidden = elim rules.max [
  | none ↦ []
  | some max ↦
      let printed = render_max_print max.print_text hidden [] in
      if hidden == 0 then [] else if is_empty printed then [] else unmarked printed ∷ []
]

abbrev pub no_lines : List RenderedLine → Bool
no_lines [] = true
no_lines (l ∷ ls) = false

-- The end that `renderGroup` and `renderBoundarySection` have in common: a group of which nothing
-- is shown, and nothing said either, is left out with its stages.
unfoldable pub with_stages : Group → List RenderedLine → ℕ → Variables → ℤ → List RenderedLine
with_stages g rendered hidden vars code =
    let extra = limit_line g.line_rules hidden in
    if no_lines rendered && no_lines extra
    then []
    else render_group_stage g.initially vars
      ++ (rendered ++ (extra ++ render_group_final_stage g.finally vars code))

-- The stages read the variables of the first item, as its rules have left them.
unfoldable pub render_group : Group → Text → List GroupItem → ℤ → List RenderedLine
render_group g key [] code = []
render_group g key (first ∷ items) code =
    let mark : Text → RenderedLine = λ t. record { text = t; group_key = key; group_item = true } in
    let r = render_items g.line_rules mark (first ∷ items) none 0 in
    let (_, vars) = render_group_item g.line_rules first.line first.vars 0 in
    with_stages g r.items r.hidden vars code

unfoldable pub render_boundary_section : Group → BoundarySection → ℤ → List RenderedLine
render_boundary_section g section code =
    let r = render_items g.line_rules unmarked section.items (some section.vars) 0 in
    with_stages g r.items r.hidden (elim r.vars [ some v ↦ v | none ↦ section.vars ]) code

-- The order of `slices.Sorted` on the keys.
unfoldable pub insert_key :
    Text × List GroupItem → List (Text × List GroupItem) → List (Text × List GroupItem)
insert_key e [] = e ∷ []
insert_key e (x ∷ xs) =
    let rest = insert_key e xs in if text_leb e.0 x.0 then e ∷ x ∷ xs else x ∷ rest

unfoldable pub sorted_by_key : List (Text × List GroupItem) → List (Text × List GroupItem)
sorted_by_key [] = []
sorted_by_key (x ∷ xs) = insert_key x (sorted_by_key xs)

unfoldable pub render_keys : Group → List (Text × List GroupItem) → ℤ → List RenderedLine
render_keys g [] code = []
render_keys g ((key, items) ∷ rest) code = render_group g key items code ++ render_keys g rest code

unfoldable pub render_sections : Group → List BoundarySection → ℤ → List RenderedLine
render_sections g [] code = []
render_sections g (s ∷ ss) code = render_boundary_section g s code ++ render_sections g ss code

unfoldable pub render_of_group : Group → ℤ → List RenderedLine
render_of_group g code = elim g.mode [
  | boundary ↦ render_sections g g.sections code
  | collecting ↦ render_keys g (sorted_by_key g.items) code
]

unfoldable pub render_groups : List Group → ℤ → List RenderedLine
render_groups [] code = []
render_groups (g ∷ gs) code = render_of_group g code ++ render_groups gs code

-- ===== src/Yaml/Lines.antt =====
-- internal/filters/yaml/yaml_filter.go: what the rules of a scope say of one line.
pub mod Delimiter
pub mod Verdict
pub mod Limit
use cmdshape.Base.{
  ℕ, suc, ◌+◌, ◌-◌, ◌%◌, Bool, true, false, ◌&&◌, ◌||◌, List, [], ◌∷◌, ◌++◌, Option, none, some,
  Text, length, take, drop, any, is_empty, has_prefix, has_suffix, contains, leb, if◌then◌else◌,
  u64_mod,
}
use cmdshape.Contracts.{Action, ActionKind, keep, ignore, replace, unset, plain}
use cmdshape.Yaml.Model.{Regex, Variables, MatchAction, Replace, Matcher, Max, Rules, Scope}
use cmdshape.Yaml.Template.{lookup, assign, render_template, atoi, itoa}

abbrev pub cr_lf : Text
cr_lf = 13 ∷ 10 ∷ []

-- The content of a line and its delimiter.
unfoldable pub split_record_delimiter : Text → Text × Text
split_record_delimiter line =
    if has_suffix line cr_lf
    then (take (length line - 2) line, cr_lf)
    else if has_suffix line (10 ∷ []) || has_suffix line (13 ∷ [])
    then (take (length line - 1) line, drop (length line - 1) line)
    else (line, [])

abbrev pub is_given : Text → Bool
is_given t = if is_empty t then false else true

unfoldable pub matches : Matcher → Text → Bool
matches m content = elim m.regex [
  | some r ↦ r.match_string content
  | none ↦
      if is_given m.starts_with
      then has_prefix content m.starts_with
      else if is_given m.contains_part
      then contains content m.contains_part
      else if is_given m.ends_with
      then has_suffix content m.ends_with
      else false
]

-- `none` is the source's false.
unfoldable pub replace_content : Replace → Text → Variables → Option Text
replace_content r content variables =
    let rendered = some (render_template r.replacement variables) in
    elim r.regex [
      | some re ↦
          if re.match_string content
          then some (render_template (re.replace_all_string content r.replacement) variables)
          else none
      | none ↦
          if is_given r.starts_with
          then if has_prefix content r.starts_with then rendered else none
          else if is_given r.contains_part
          then if contains content r.contains_part then rendered else none
          else if is_given r.ends_with
          then if has_suffix content r.ends_with then rendered else none
          else rendered
    ]

unfoldable pub apply_match_actions : List MatchAction → Variables → Variables
apply_match_actions [] variables = variables
apply_match_actions (a ∷ actions) variables =
    let current = atoi (lookup variables a.variable) in
    apply_match_actions actions
      (assign variables a.variable (itoa ((current + a.increment) % u64_mod)))

-- `replaceLine`: the new line, with the variables as its rule's actions leave them.
unfoldable pub replace_line : List Replace → Text → Text → Variables → Option (Text × Variables)
replace_line [] line content variables = none
replace_line (rule ∷ rules) line content variables = elim (replace_content rule content variables) [
  | some replaced ↦
      some
        (replaced ++ (split_record_delimiter line).1, apply_match_actions rule.on_match variables)
  | none ↦ replace_line rules line content variables
]

abbrev pub replacing : Text → Action
replacing output = record { kind = replace; stream = unset; output = output; replace_count = 1 }

abbrev pub any_given : List Matcher → Bool
any_given [] = false
any_given (m ∷ ms) = true

-- `baseActionForLine`, with the variables behind it.
unfoldable pub base_action_for_line : Rules → Text → Text → Variables → Action × Variables
base_action_for_line c line content variables =
    if any (λ m. matches m content) c.keep_rules
    then (plain keep, variables)
    else elim (replace_line c.replace_rules line content variables) [
      | some (replaced, after) ↦ (replacing replaced, after)
      | none ↦
          if any (λ m. matches m content) c.skip_rules
          then (plain ignore, variables)
          else if any_given c.keep_rules
          then (plain ignore, variables)
          else (plain keep, variables)
    ]

abbrev pub is_ignore : ActionKind → Bool
is_ignore ignore = true
is_ignore _ = false

abbrev pub at_max : Option Max → ℕ → Bool
at_max none buffered = false
at_max (some max) buffered = leb max.count buffered

-- `actionForLine`, with the scope and the variables behind it.
unfoldable pub action_for_line : Scope → Text → ℕ → Variables → Action × Scope × Variables
action_for_line c line buffered variables =
    let (action, after) =
      base_action_for_line c.rules line (split_record_delimiter line).0 variables in
    if is_ignore action.kind
    then (action, c, after)
    else if at_max c.rules.max buffered
    then (plain ignore, record c { hidden = suc c.hidden }, after)
    else (action, c, after)

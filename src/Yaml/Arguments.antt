-- ===== src/Yaml/Arguments.antt =====
-- internal/filters/yaml/yaml_filter.go: the arguments a case is for, and those it adds to a command.
pub mod Kept
pub mod Logic
pub mod Flags
pub mod Holds
use cmdshape.Base.{
  ℕ, Bool, true, false, ◌&&◌, ◌||◌, List, [], ◌∷◌, ◌++◌, Option, none, some, Text, any,
  contains_text, has_prefix, cut, ◌==◌, if◌then◌else◌,
}
use cmdshape.Operations.{
  is_nil, matches_first_is, matches_first_in, matches_have_short_flag, matches_not_have_short_flag,
  matches_have_all_short_flags, matches_not_have_all_short_flags, dash, cluster_has,
  has_explicit_positionals,
}
use cmdshape.Operations.View.{
  separator, parse_arguments, has_long_option, has_long_option_value, view_matches_have_any,
  view_matches_lack_any, view_matches_have_sequence, view_matches_positionals_lack_any,
  view_matches_no_positionals,
}
use cmdshape.Yaml.Model.{When, CommandChanges}
use cmdshape.Yaml.Lines.{is_given}

-- The arguments behind the first.
unfoldable pub filter_args : List Text → List Text
filter_args [] = []
filter_args (a ∷ args) = args

abbrev pub leading_command : When → Bool
leading_command w = is_given w.first_is || (if is_nil w.first_in then false else true)

unfoldable pub matches_when_arguments : When → List Text → List Text → Bool
matches_when_arguments w flags_with_values args =
    let view = parse_arguments args flags_with_values in
    matches_first_is args w.first_is
    && matches_first_in args w.first_in
    && view_matches_have_any view w.have_any
    && view_matches_lack_any view w.lack_any
    && view_matches_have_sequence view w.have_sequence
    && matches_have_short_flag view.before w.have_short_flag
    && matches_not_have_short_flag view.before w.not_have_short_flag
    && matches_have_all_short_flags view.before w.have_all_short_flags
    && matches_not_have_all_short_flags view.before w.not_have_all_short_flags
    && view_matches_positionals_lack_any view w.positionals_lack_any
    && view_matches_no_positionals view w.no_positionals (leading_command w)

unfoldable pub argument_present : List Text → Text → List Text → Bool
argument_present args want flags_with_values =
    if has_prefix want separator
    then elim (cut b'=' want) [
      | some (name, value) ↦
          has_long_option_value (parse_arguments args flags_with_values) name value
      | none ↦ has_long_option (parse_arguments args flags_with_values) want
    ]
    else contains_text args want

-- A flag that is not a dash and one byte is not added.
unfoldable pub add_short_flag_if_missing : List Text → Text → List Text
add_short_flag_if_missing args (c ∷ b ∷ []) =
    if c == dash then if any (cluster_has b) args then args else args ++ (c ∷ b ∷ []) ∷ [] else args
add_short_flag_if_missing args _ = args

unfoldable pub add_short_flags_loop : List Text → List Text → List Text
add_short_flags_loop args [] = args
add_short_flags_loop args (flag ∷ flags) =
    add_short_flags_loop (add_short_flag_if_missing args flag) flags

unfoldable pub append_missing_loop : List Text → List Text → List Text → List Text
append_missing_loop flags_with_values args [] = args
append_missing_loop flags_with_values args (arg ∷ wants) =
    append_missing_loop flags_with_values
      (if argument_present args arg flags_with_values then args else args ++ arg ∷ []) wants

-- The arguments that may be positionals, behind the tool and a leading command; `none` where the
-- source panics, since there is not even a tool.
unfoldable pub explicit_args : When → List Text → Option (List Text)
explicit_args w [] = none
explicit_args w (tool ∷ args) = some (if leading_command w then filter_args args else args)

unfoldable pub apply_changes : List Text → When → List Text → CommandChanges → Option (List Text)
apply_changes args w flags_with_values command =
    let mutated =
      append_missing_loop flags_with_values (add_short_flags_loop args command.add_short_flags)
        command.append_if_missing in
    elim (explicit_args w mutated) [
      | none ↦ none
      | some filtered ↦ some (
          if has_explicit_positionals filtered flags_with_values
          then mutated
          else mutated ++ command.append_if_no_positionals)
    ]

unfoldable pub apply_command_mutations :
    List Text → When → List Text → Option CommandChanges → Option (List Text)
apply_command_mutations args w flags_with_values none = some args
apply_command_mutations args w flags_with_values (some command) =
    apply_changes args w flags_with_values command

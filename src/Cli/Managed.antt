-- ===== src/Cli/Managed.antt =====
-- internal/cli/parse.go: the commands that are the program's own.
use cmdshape.Base.{
  Bool, false, ◌&&◌, ◌||◌, List, [], ◌∷◌, Text, codes, text_eq, contains_text, trim_space, to_lower,
}

abbrev pub lifecycle_commands : List Text
lifecycle_commands =
    codes "capture"
    ∷ codes "init"
    ∷ codes "gain"
    ∷ codes "history"
    ∷ codes "recovery"
    ∷ codes "verify"
    ∷ codes "upgrade"
    ∷ codes "uninstall"
    ∷ codes "repair"
    ∷ []

abbrev pub filter_commands : List Text
filter_commands = codes "filter" ∷ []

unfoldable pub is_lifecycle_command : Text → Bool
is_lifecycle_command token = contains_text lifecycle_commands (trim_space (to_lower token))

unfoldable pub is_filter_command : Text → Bool
is_filter_command token = contains_text filter_commands (trim_space (to_lower token))

unfoldable pub is_managed_command : Text → Bool
is_managed_command token = is_lifecycle_command token || is_filter_command token

unfoldable pub is_managed_args : List Text → Bool
is_managed_args [] = false
is_managed_args (a ∷ args) = is_managed_command a

unfoldable pub should_skip_metrics : Text → List Text → Bool
should_skip_metrics tool [] = false
should_skip_metrics tool (a ∷ []) = false
should_skip_metrics tool (a ∷ b ∷ args) =
    text_eq (trim_space tool) (codes "cmdshape") && is_managed_command b

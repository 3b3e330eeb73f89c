-- ===== src/CommandLine/Render.antt =====
-- internal/parser.go: `renderCommandArgs`, which quotes arguments for a shell.
use cmdshape.Base.{
  ℕ, Bool, true, false, ◌&&◌, ◌||◌, List, [], ◌∷◌, ◌++◌, map, Text, codes, any, ◌==◌, leb,
  if◌then◌else◌, is_empty, join,
}
use cmdshape.CommandLine.Split.{single_quote, double_quote}

-- Is the rune in the constant `safe`: letters, digits and @%_+=:,./-
unfoldable pub is_safe : ℕ → Bool
is_safe r =
    (leb b'a' r && leb r b'z')
    || (leb b'A' r && leb r b'Z')
    || (leb b'0' r && leb r b'9')
    || any (λ c. c == r) (codes "@%_+=:,./-")

-- a quote inside quotes: '"'"'
abbrev pub escaped_quote : Text
escaped_quote = single_quote ∷ double_quote ∷ single_quote ∷ double_quote ∷ single_quote ∷ []

-- The loop of `quoteShellArg`.
unfoldable pub quote_runes : Text → Text
quote_runes [] = []
quote_runes (r ∷ rs) = (if r == single_quote then escaped_quote else r ∷ []) ++ quote_runes rs

unfoldable pub quote_shell_arg : Text → Text
unfolding quote_runes
quote_shell_arg arg =
    if any (λ r. r == single_quote) arg
    then single_quote ∷ quote_runes arg ++ single_quote ∷ []
    else single_quote ∷ arg ++ single_quote ∷ []

unfoldable pub render_command_arg : Text → Text
render_command_arg arg =
    if is_empty arg
    then single_quote ∷ single_quote ∷ []
    else if any (λ r. if is_safe r then false else true) arg
    then quote_shell_arg arg
    else arg

unfoldable pub render_command_args : List Text → Text
render_command_args args = join (map render_command_arg args) (32 ∷ [])

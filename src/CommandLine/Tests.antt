-- ===== src/CommandLine/Tests.antt =====
-- Command lines on small inputs.
use cmdshape.Base.{List, [], ◌∷◌, Text, codes, ◌≡◌}
use cmdshape.CommandLine.Split.{ok, split_command_line}
use cmdshape.CommandLine.Split.RoundTrip.{split-render}
use cmdshape.CommandLine.Render.{render_command_args}
use cmdshape.CommandLine.Parse.{parse_command_line, parse_command_args}
use cmdshape.CommandLine.Parse.RoundTrip.{parse_command_line-render}

abbrev commit_args : List Text
commit_args = codes "commit" ∷ codes "-m" ∷ codes "it's \"done\"" ∷ [] ∷ []

split-render_example :
    split_command_line (render_command_args (codes "git" ∷ commit_args))
    ≡ ok (codes "git" ∷ commit_args)
split-render_example = split-render (codes "git") commit_args

parse_command_line-render_example :
    parse_command_line (render_command_args (codes "git" ∷ commit_args))
    ≡ parse_command_args (codes "git" ∷ commit_args)
parse_command_line-render_example = parse_command_line-render (codes "git") commit_args

-- ===== src/CommandLine/Parse.antt =====
-- internal/parser.go: `ParseCommandArgs` and `ParseCommandLine`.
pub mod RoundTrip
use cmdshape.Base.{ℕ, Bool, List, [], ◌∷◌, none, Text, if◌then◌else◌, is_empty, trim_space}
use cmdshape.Contracts.{Command}
use cmdshape.CommandLine.Split.{Result, ok, fail, no_command_provided, ◌>>=◌, split_command_line}
use cmdshape.CommandLine.Render.{render_command_args}
use cmdshape.CommandLine.Tool.{canonical_tool_name}

unfoldable pub parse_command_args : List Text → Result Command
parse_command_args [] = fail no_command_provided
parse_command_args (arg ∷ args) =
    if is_empty (trim_space arg)
    then fail no_command_provided
    else ok (record {
      command_id = [];
      raw_input = render_command_args (arg ∷ args);
      args = arg ∷ args;
      matching_args = none;
      tool = canonical_tool_name (trim_space arg);
      dispatch = [];
    })

unfoldable pub parse_command_line : Text → Result Command
parse_command_line raw =
    let trimmed = trim_space raw in
    if is_empty trimmed then fail no_command_provided else (do
      args ← split_command_line trimmed
      command ← parse_command_args args
      ok (record command { raw_input = trimmed }))

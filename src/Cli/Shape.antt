-- ===== src/Cli/Shape.antt =====
-- internal/cli/parse.go: `DescribeExecutionShape`.
use cmdshape.Base.{
  Bool, true, false, ◌&&◌, ◌||◌, List, [], ◌∷◌, Text, codes, text_eq, contains_text, contains,
  trim_space, to_lower, if◌then◌else◌, join,
}

pub record ExecutionShape : Type 0 where
  pub uses_shell : Bool
  pub has_pipeline : Bool
  pub has_chain : Bool
  pub has_find_exec : Bool
  pub has_xargs : Bool
  pub nested_cmdshape : Bool

abbrev pub no_shape : ExecutionShape
no_shape = record {
  uses_shell = false;
  has_pipeline = false;
  has_chain = false;
  has_find_exec = false;
  has_xargs = false;
  nested_cmdshape = false;
}

unfoldable pub is_shell_command : List Text → Bool
is_shell_command [] = false
is_shell_command (a ∷ []) = false
is_shell_command (a ∷ b ∷ args) =
    contains_text (codes "sh" ∷ codes "bash" ∷ codes "zsh" ∷ []) (trim_space (to_lower a))
    && contains b (codes "c")

unfoldable pub describe_script : Text → ExecutionShape
describe_script script = record {
  uses_shell = true;
  has_pipeline = contains script (codes "|");
  has_chain =
      contains script (codes "&&") || contains script (codes "||") || contains script (codes ";");
  has_find_exec = contains script (codes "find ") && contains script (codes "-exec");
  has_xargs = contains script (codes "xargs");
  nested_cmdshape = contains script (codes "cmdshape ");
}

-- One round of the loop over the arguments, `before` being the argument before this one.
unfoldable pub describe_arg : Text → Text → ExecutionShape → ExecutionShape
describe_arg before arg shape = record {
  uses_shell = shape.uses_shell;
  has_pipeline = shape.has_pipeline || text_eq arg (codes "|");
  has_chain =
      shape.has_chain
      || text_eq arg (codes "&&")
      || text_eq arg (codes "||")
      || text_eq arg (codes ";");
  has_find_exec =
      shape.has_find_exec
      || text_eq arg (codes "-exec")
      || (text_eq before (codes "find") && text_eq arg (codes "-exec"));
  has_xargs = shape.has_xargs || text_eq arg (codes "xargs");
  nested_cmdshape = shape.nested_cmdshape || text_eq arg (codes "cmdshape");
}

unfoldable pub describe_args : Text → List Text → ExecutionShape → ExecutionShape
describe_args before [] shape = shape
describe_args before (arg ∷ args) shape = describe_args arg args (describe_arg before arg shape)

unfoldable pub describe_execution_shape : List Text → ExecutionShape
describe_execution_shape [] = no_shape
describe_execution_shape (a ∷ []) = no_shape
describe_execution_shape (a ∷ b ∷ args) =
    if is_shell_command (a ∷ b ∷ args)
    then describe_script (join args (codes " "))
    else describe_args a (b ∷ args) no_shape

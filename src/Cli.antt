-- ===== src/Cli.antt =====
-- internal/cli/parse.go: the program's own flags, and what it says of a command's shape. A text is a
-- list of code points.
pub mod Managed
pub mod Redactions
pub mod Shape
pub mod Scope
mod Tests
use cmdshape.Base.{
  Bool, true, false, ◌&&◌, ◌||◌, List, [], ◌∷◌, ◌++◌, Option, none, some, Text, codes, text_eq,
  has_prefix, if◌then◌else◌,
}
use cmdshape.Cli.Managed.{is_managed_command}
use cmdshape.Cli.Redactions.{parse_confidential_redactions}

pub record Options : Type 0 where
  pub show_help : Bool
  pub show_version : Bool
  pub raw : Bool
  pub confidential_redactions : List Text
  pub command_args : List Text

pub data Error : Type 0 where
  unknown_flag : Text → Error
  missing_value : Text → Error
  raw_out_of_scope : Error
  confidential_out_of_scope : Error

pub data Result (A : Type 0) : Type 0 where
  ok : A → Result A
  fail : Error → Result A

abbrev pub no_options : Options
no_options = record {
  show_help = false;
  show_version = false;
  raw = false;
  confidential_redactions = [];
  command_args = [];
}

-- the error of `validateExecutionFlagScope`, if there is one
unfoldable pub validate_execution_flag_scope : List Text → Options → Option Error
validate_execution_flag_scope [] opts = none
validate_execution_flag_scope (command ∷ args) opts =
    if (if is_managed_command command then false else true)
    then none
    else if opts.raw
    then some raw_out_of_scope
    else elim opts.confidential_redactions [ [] ↦ none | r ∷ rs ↦ some confidential_out_of_scope ]

unfoldable pub finalize_parsed_options : Options → Result Options
finalize_parsed_options opts =
    if opts.show_help
    then ok opts
    else elim (validate_execution_flag_scope opts.command_args opts) [
      | none ↦ ok opts
      | some e ↦ fail e
    ]

abbrev pub confidential_flag : Text
confidential_flag = codes "--confidential"

-- `parseFlagArg` on the flags without a value; `none` where the argument is none of them.
unfoldable pub parse_plain_flag : Text → Options → Option Options
parse_plain_flag arg opts =
    if text_eq arg (codes "--help") || text_eq arg (codes "-h")
    then some (record opts { show_help = true })
    else if text_eq arg (codes "--version")
    then some (record opts { show_version = true })
    else if text_eq arg (codes "--raw")
    then some (record opts { raw = true })
    else none

-- What the loop does with an argument that is no flag of the program.
unfoldable pub parse_rest : Text → List Text → Options → Result Options
parse_rest arg args opts =
    if has_prefix arg (codes "-")
    then fail (unknown_flag arg)
    else finalize_parsed_options (record opts { command_args = arg ∷ args })

unfoldable pub parse_loop : List Text → Options → Result Options
parse_loop [] opts = finalize_parsed_options opts
parse_loop (arg ∷ []) opts =
    if text_eq arg (codes "--")
    then finalize_parsed_options (record opts { command_args = [] })
    else elim (parse_plain_flag arg opts) [
      | some opts' ↦ finalize_parsed_options opts'
      | none ↦
          if text_eq arg confidential_flag
          then fail (missing_value confidential_flag)
          else parse_rest arg [] opts
    ]
parse_loop (arg ∷ next ∷ args) opts =
    let with_value =
      parse_loop args
        (record opts { confidential_redactions = parse_confidential_redactions next }) in
    let go_on = λ (o : Options). parse_loop (next ∷ args) o in
    if text_eq arg (codes "--")
    then finalize_parsed_options (record opts { command_args = next ∷ args })
    else elim (parse_plain_flag arg opts) [
      | some opts' ↦ go_on opts'
      | none ↦
          if text_eq arg confidential_flag then with_value else parse_rest arg (next ∷ args) opts
    ]

unfoldable pub parse : List Text → Result Options
parse args = parse_loop args no_options

-- ===== src/Operations/Tests.antt =====
-- Arguments on small inputs.
use cmdshape.Base.{true, List, [], ◌∷◌, ◌++◌, Text, codes, ◌≡◌, refl, ◌↔◌}
use cmdshape.Operations.Sequence.{contains_sequence, Occurs, contains_sequence_iff}
use cmdshape.Operations.View.{ArgumentView, parse_arguments, read_before, is_long_option_name}
use cmdshape.Operations.View.Parts.{tail_of, parse_arguments-parts}
use cmdshape.Operations.View.Spellings.{SameReading, read_before-attached}

abbrev show_args : List Text
show_args = codes "show" ∷ codes "--format" ∷ codes "oneline" ∷ codes "--" ∷ codes "a.go" ∷ []

abbrev value_flags : List Text
value_flags = codes "--format" ∷ []

contains_sequence_iff_example :
    (contains_sequence show_args (codes "--format" ∷ codes "oneline" ∷ []) ≡ true)
    ↔ Occurs (codes "--format" ∷ codes "oneline" ∷ []) show_args
contains_sequence_iff_example =
    contains_sequence_iff show_args (codes "--format" ∷ codes "oneline" ∷ [])

parse_arguments-parts_example :
    (show_args ≡ (parse_arguments show_args value_flags).before ++ tail_of value_flags show_args)
    × ((parse_arguments show_args value_flags).normalized
        ≡ (parse_arguments show_args value_flags).normalized_pre ++ tail_of value_flags show_args)
    × ((parse_arguments show_args value_flags).raw ≡ show_args)
parse_arguments-parts_example = parse_arguments-parts show_args value_flags

format_name : is_long_option_name (codes "--format") ≡ true
unfolding is_long_option_name
format_name = refl

abbrev empty_view : ArgumentView
empty_view = record {
  raw = [];
  before = [];
  normalized = [];
  normalized_pre = [];
  positionals = [];
  long_options = [];
}

read_before-attached_example :
    SameReading
      (read_before value_flags
        ((codes "--format" ++ b'=' ∷ codes "oneline") ∷ codes "a.go" ∷ [])
        empty_view)
      (read_before value_flags (codes "--format" ∷ codes "oneline" ∷ codes "a.go" ∷ []) empty_view)
read_before-attached_example =
    read_before-attached value_flags (codes "--format") (codes "oneline") format_name refl refl
      (codes "a.go" ∷ []) empty_view

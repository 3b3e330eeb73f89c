-- ===== src/Operations/View.antt =====
-- internal/filters/operations/argument_view.go: a reading of the arguments for matching.
pub mod Parts
pub mod Spellings
use cmdshape.Base.{
  ℕ, zero, suc, ◌+◌, ◌-◌, ◌≤◌, Bool, true, false, ◌&&◌, ◌||◌, List, [], ◌∷◌, ◌++◌, Option, none,
  some, Text, codes, length, any, contains_text, text_eq, has_prefix, cut, ltb, leb, ◌==◌,
  if◌then◌else◌,
}
use cmdshape.Operations.Sequence.{contains_sequence}

-- `value` is none where the source has `hasValue` false.
pub record LongOption : Type 0 where
  pub name : Text
  pub value : Option Text

-- The source also keeps the value flags, which nothing reads.
pub record ArgumentView : Type 0 where
  pub raw : List Text
  pub before : List Text
  pub normalized : List Text
  pub normalized_pre : List Text
  pub positionals : List Text
  pub long_options : List LongOption

abbrev pub separator : Text
separator = b'-' ∷ b'-' ∷ []

unfoldable pub is_long_option_name : Text → Bool
is_long_option_name value = ltb 2 (length value) && has_prefix value separator

-- `strings.Cut(arg, "=")`, where the name is a long option's.
unfoldable pub cut_option : Text → Option (Text × Text)
cut_option arg = elim (cut b'=' arg) [
  | none ↦ none
  | some (name, value) ↦ if is_long_option_name name then some (name, value) else none
]

unfoldable pub append_normalized : List Text → ArgumentView → ArgumentView
append_normalized values v = record v {
  normalized_pre = v.normalized_pre ++ values;
  normalized = v.normalized ++ values;
}

abbrev pub add_before : Text → ArgumentView → ArgumentView
add_before arg v = record v { before = v.before ++ arg ∷ [] }

abbrev pub add_long_option : Text → Option Text → ArgumentView → ArgumentView
add_long_option name value v = record v {
  long_options = v.long_options ++ record { name = name; value = value } ∷ [];
}

-- `appendLongOption` where no value follows, and where `value` does.
unfoldable pub append_flag : Text → ArgumentView → ArgumentView
append_flag name v = add_long_option name none (append_normalized (name ∷ []) v)

unfoldable pub append_flag_value : Text → Text → ArgumentView → ArgumentView
append_flag_value name value v =
    add_long_option name (some value)
      (append_normalized (value ∷ []) (add_before value (append_normalized (name ∷ []) v)))

-- `appendStandaloneValue` where a value follows.
unfoldable pub append_standalone_value : Text → ArgumentView → ArgumentView
append_standalone_value value v = append_normalized (value ∷ []) (add_before value v)

unfoldable pub append_positional : Text → ArgumentView → ArgumentView
append_positional arg v =
    if has_prefix arg (b'-' ∷ []) then v else record v { positionals = v.positionals ++ arg ∷ [] }

-- `appendBeforeSeparator` on an argument and the one behind it, if there is one: the view, and
-- whether the next argument has been taken.
unfoldable pub append_before_separator :
    List Text → Text → Option Text → ArgumentView → ArgumentView × Bool
append_before_separator value_flags arg next v = elim (cut_option arg) [
  | some (name, value) ↦
      (append_normalized (name ∷ value ∷ []) (add_long_option name (some value) v), false)
  | none ↦
      if is_long_option_name arg
      then elim next [
        | none ↦ (append_flag arg v, false)
        | some value ↦
            if contains_text value_flags arg
            then (append_flag_value arg value v, true)
            else (append_flag arg v, false)
      ]
      else if contains_text value_flags arg
      then elim next [
        | none ↦ (append_normalized (arg ∷ []) v, false)
        | some value ↦ (append_standalone_value value (append_normalized (arg ∷ []) v), true)
      ]
      else (append_positional arg (append_normalized (arg ∷ []) v), false)
]

-- The loop behind the separator.
unfoldable pub read_after : List Text → ArgumentView → ArgumentView
read_after [] v = v
read_after (arg ∷ args) v =
    read_after args
      (record v { normalized = v.normalized ++ arg ∷ []; positionals = v.positionals ++ arg ∷ [] })

-- The loop before it.
unfoldable pub read_before : List Text → List Text → ArgumentView → ArgumentView
read_before value_flags [] v = v
read_before value_flags (arg ∷ []) v =
    if text_eq arg separator
    then record v { normalized = v.normalized ++ arg ∷ [] }
    else (append_before_separator value_flags arg none (add_before arg v)).0
read_before value_flags (arg ∷ next ∷ args) v =
    let (read, taken) = append_before_separator value_flags arg (some next) (add_before arg v) in
    let skipping = read_before value_flags args read in
    let going_on = read_before value_flags (next ∷ args) read in
    if text_eq arg separator
    then read_after (next ∷ args) (record v { normalized = v.normalized ++ arg ∷ [] })
    else if taken
    then skipping
    else going_on

unfoldable pub parse_arguments : List Text → List Text → ArgumentView
parse_arguments args value_flags = read_before value_flags args (record {
  raw = args;
  before = [];
  normalized = [];
  normalized_pre = [];
  positionals = [];
  long_options = [];
})

unfoldable pub has_long_option : ArgumentView → Text → Bool
has_long_option v name = any (λ o. text_eq o.name name) v.long_options

abbrev pub option_is : Text → Text → LongOption → Bool
option_is name value o =
    text_eq o.name name && elim o.value [ none ↦ false | some w ↦ text_eq w value ]

unfoldable pub has_long_option_value : ArgumentView → Text → Text → Bool
has_long_option_value v name value = any (option_is name value) v.long_options

-- The loop of `LastLongOptionValue`, from the last option to the first.
last_value : Text → List LongOption → Option Text
last_value name [] = none
last_value name (o ∷ os) = elim (last_value name os) [
  | some v ↦ some v
  | none ↦ if text_eq o.name name then o.value else none
]

unfoldable pub last_long_option_value : ArgumentView → Text → Option Text
unfolding last_value
last_long_option_value v name = last_value name v.long_options

unfoldable pub matches_wanted_argument : ArgumentView → Text → Bool
matches_wanted_argument v want =
    if has_prefix want separator
    then elim (cut b'=' want) [
      | some (name, value) ↦ has_long_option_value v name value
      | none ↦ has_long_option v want
    ]
    else contains_text v.raw want

unfoldable pub view_matches_have_any : ArgumentView → List Text → Bool
view_matches_have_any v [] = true
view_matches_have_any v (want ∷ wants) = any (matches_wanted_argument v) (want ∷ wants)

unfoldable pub view_matches_lack_any : ArgumentView → List Text → Bool
view_matches_lack_any v [] = true
view_matches_lack_any v (want ∷ wants) =
    if view_matches_have_any v (want ∷ wants) then false else true

unfoldable pub view_matches_positionals_lack_any : ArgumentView → List Text → Bool
view_matches_positionals_lack_any v [] = true
view_matches_positionals_lack_any v (d ∷ ds) =
    if any (contains_text (d ∷ ds)) v.positionals then false else true

unfoldable pub view_matches_no_positionals : ArgumentView → Bool → Bool → Bool
view_matches_no_positionals v want allow_leading_command =
    if want
    then leb (length v.positionals) (if allow_leading_command && ltb 0 (length v.raw) then 1 else 0)
    else true

unfoldable pub normalize_matcher_sequence : List Text → List Text
normalize_matcher_sequence [] = []
normalize_matcher_sequence (token ∷ tokens) =
    let rest = normalize_matcher_sequence tokens in
    elim (cut_option token) [ some (name, value) ↦ name ∷ value ∷ rest | none ↦ token ∷ rest ]

unfoldable pub view_matches_have_sequence : ArgumentView → List Text → Bool
view_matches_have_sequence v [] = true
view_matches_have_sequence v (token ∷ tokens) =
    if has_prefix token separator
    then contains_sequence v.normalized_pre (normalize_matcher_sequence (token ∷ tokens))
    else contains_sequence v.normalized (normalize_matcher_sequence (token ∷ tokens))

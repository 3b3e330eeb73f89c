-- ===== src/Yaml/Model.antt =====
-- internal/filters/yaml/yaml_filter.go: the data of a compiled filter. A text is a list of bytes.
use cmdshape.Base.{ℕ, List, Option, Bool, Text}

-- A compiled pattern of Go's `regexp`, by its answers: does it match, the text with its matches
-- replaced, and the groups of its first match with their names.
pub record Regex : Type 0 where
  pub match_string : Text → Bool
  pub replace_all_string : Text → Text → Text
  pub find_string_submatch : Text → Option (List Text)
  pub subexp_names : List Text

-- A Go map of texts: at most one entry of a name, in the order in which the map is walked.
abbrev pub Variables : Type 0
Variables = List (Text × Text)

-- `increment` is an `int`, as the natural number below 2 ^ 64 that stands for it.
pub record MatchAction : Type 0 where
  pub variable : Text
  pub increment : ℕ

pub record Replace : Type 0 where
  pub regex : Option Regex
  pub starts_with : Text
  pub contains_part : Text
  pub ends_with : Text
  pub replacement : Text
  pub on_match : List MatchAction

pub record Matcher : Type 0 where
  pub regex : Option Regex
  pub starts_with : Text
  pub contains_part : Text
  pub ends_with : Text

pub record MaxGroupsSummary : Type 0 where
  pub show : ℕ
  pub print_text : Text
  pub delimiter : Text
  pub prefix : Text
  pub suffix : Text

pub record Max : Type 0 where
  pub count : ℕ
  pub print_text : Text
  pub groups_summary : Option MaxGroupsSummary

pub record OnExit : Type 0 where
  pub print_text : Text

-- The part of a scope that looks at one line. The scope of a group's lines is used for this alone.
pub record Rules : Type 0 where
  pub replace_rules : List Replace
  pub keep_rules : List Matcher
  pub skip_rules : List Matcher
  pub max : Option Max

pub record Variable : Type 0 where
  pub name : Text
  pub kind : Text
  pub initial_value : Text
  pub regex_group : Text
  pub default_value : Text

pub record GroupItem : Type 0 where
  pub line : Text
  pub vars : Variables

pub record BoundarySection : Type 0 where
  pub vars : Variables
  pub items : List GroupItem

pub data GroupMode : Type 0 where
  collecting boundary : GroupMode

pub record ActiveBoundary : Type 0 where
  pub group_index : ℕ
  pub section_index : ℕ

-- A member is none where the source's pointer is nil.
pub record Group : Type 0 where
  pub mode : GroupMode
  pub regex : Option Regex
  pub starts_with : Text
  pub starts_regex : Option Regex
  pub variables : List Variable
  pub group_by : Text
  pub initially : Option OnExit
  pub line_rules : Option Rules
  pub finally : Option OnExit
  pub items : List (Text × List GroupItem)
  pub sections : List BoundarySection

pub record Scope : Type 0 where
  pub rules : Rules
  pub hidden : ℕ
  pub groups : List Group
  pub active_boundary : Option ActiveBoundary

pub record When : Type 0 where
  pub first_is : Text
  pub first_in : List Text
  pub have_any : List Text
  pub lack_any : List Text
  pub have_sequence : List Text
  pub have_short_flag : List Text
  pub not_have_short_flag : List Text
  pub have_all_short_flags : List Text
  pub not_have_all_short_flags : List Text
  pub positionals_lack_any : List Text
  pub no_positionals : Bool

pub record CommandChanges : Type 0 where
  pub append_if_missing : List Text
  pub append_if_no_positionals : List Text
  pub add_short_flags : List Text

pub record Case : Type 0 where
  pub id : Text
  pub is_passthrough : Bool
  pub when : When
  pub variables : Variables
  pub initials : Variables
  pub command : Option CommandChanges
  pub out : Option Scope
  pub err : Option Scope
  pub shared : Option Scope
  pub on_exit : Option OnExit

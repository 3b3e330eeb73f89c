-- ===== src/Contracts.antt =====
-- internal/contracts/types.go: streams, actions, commands, and the filter interface; and
-- internal/filters/passthrough.go.
use cmdshape.Base.{ℕ, Text, ℤ, List, [], Option, none, some, Bool, true, false, ◌≡◌, refl}

-- `unset` is the zero value "".
pub data Stream : Type 0 where
  combined stdout stderr unset : Stream

abbrev pub stream_eq : Stream → Stream → Bool
stream_eq combined combined = true
stream_eq stdout stdout = true
stream_eq stderr stderr = true
stream_eq unset unset = true
stream_eq _ _ = false

pub stream_eq_sound : (a b : Stream) → stream_eq a b ≡ true → a ≡ b
stream_eq_sound combined combined h = refl
stream_eq_sound combined stdout h = absurd (cc)
stream_eq_sound combined stderr h = absurd (cc)
stream_eq_sound combined unset h = absurd (cc)
stream_eq_sound stdout combined h = absurd (cc)
stream_eq_sound stdout stdout h = refl
stream_eq_sound stdout stderr h = absurd (cc)
stream_eq_sound stdout unset h = absurd (cc)
stream_eq_sound stderr combined h = absurd (cc)
stream_eq_sound stderr stdout h = absurd (cc)
stream_eq_sound stderr stderr h = refl
stream_eq_sound stderr unset h = absurd (cc)
stream_eq_sound unset combined h = absurd (cc)
stream_eq_sound unset stdout h = absurd (cc)
stream_eq_sound unset stderr h = absurd (cc)
stream_eq_sound unset unset h = refl

pub data ActionKind : Type 0 where
  keep emit ignore replace : ActionKind

-- A negative `ReplaceCount` acts as 0 wherever the engine reads it, so the count is a natural number.
pub record Action : Type 0 where
  pub kind : ActionKind
  pub stream : Stream
  pub output : Text
  pub replace_count : ℕ

abbrev pub plain : ActionKind → Action
plain k = record { kind = k; stream = unset; output = []; replace_count = 0 }

-- `matching_args` is `none` where the source has a nil slice.
pub record Command : Type 0 where
  pub command_id : Text
  pub raw_input : Text
  pub args : List Text
  pub matching_args : Option (List Text)
  pub tool : Text
  pub dispatch : Text

unfoldable pub args_for_matching : Command → List Text
args_for_matching c = elim c.matching_args [ some m ↦ m | none ↦ c.args ]

-- What a filter may read of the execution state.
pub record Context : Type 0 where
  pub args : List Text
  pub buffered_count : Stream → ℕ
  pub buffered_lines : Stream → List Text
  pub exit_code : ℤ

-- A filter keeps a state `F`, which each callback may change. `on_stdout_exit_actions` is there for
-- a filter that implements `ExitActionsFilter`, `clone_filter` for a `CloneableFilter`.
pub record Filter (F : Type 0) : Type 0 where
  pub on_stdout : F → Text → Context → Action × F
  pub on_stderr : F → Text → Context → Action × F
  pub on_stdout_exit : F → Context → Action × F
  pub on_stdout_exit_actions : Option (F → Context → List Action × F)
  pub clone_filter : Option (F → F)

-- `Passthrough`: every callback answers `emit`.
unfoldable pub passthrough_filter : {F : Type 0} → Filter F
passthrough_filter = record {
  on_stdout = λ f _ _. (plain emit, f);
  on_stderr = λ f _ _. (plain emit, f);
  on_stdout_exit = λ f _. (plain emit, f);
  on_stdout_exit_actions = none;
  clone_filter = none;
}

-- ===== src/Engine/Run.antt =====
-- A whole run of the engine: the lines of a command's output, in the order in which the mutex lets
-- them in, and then the exit.
pub mod Conserve
pub mod Raw
pub mod Recover
pub mod Transparent
pub mod Account
use mathlib.Core.List.{map}
use cmdshape.Base.{List, [], ◌∷◌, ◌++◌, Text, ℤ, ℕ, ◌+◌, length}
use cmdshape.Contracts.{Stream, stdout, stderr, Filter}
use cmdshape.Engine.Buffer.{BufferEntry}
use cmdshape.Engine.State.{State}
use cmdshape.Engine.Stream.{stdout_action, stderr_action}
use cmdshape.Engine.Exit.{exit}

-- A line of the command, on one of its two streams.
pub data Event : Type 0 where
  stdout_line : Text → Event
  stderr_line : Text → Event

-- What the command itself would have printed.
abbrev pub native : Event → Stream × Text
native (stdout_line l) = (stdout, l)
native (stderr_line l) = (stderr, l)

-- What an entry prints.
abbrev pub printed : BufferEntry → Stream × Text
printed e = (e.stream, e.transformed)

module _ {F : Type 0} (filter : Filter F) where
  -- `Stdout` and `Stderr`
  unfoldable pub step : Event → State F → List BufferEntry × State F
  step (stdout_line l) s = let o = stdout_action filter l s in (o.1, o.2)
  step (stderr_line l) s = let o = stderr_action filter l s in (o.1, o.2)

  unfoldable pub feed : List Event → State F → List BufferEntry × State F
  feed [] s = ([], s)
  feed (e ∷ es) s = let (now, s') = step e s in let (later, s'') = feed es s' in (now ++ later, s'')

  unfoldable pub run : List Event → ℤ → State F → List BufferEntry × State F
  run es code s =
      let (fed, s') = feed es s in let (rest, s'') = exit filter code s' in (fed ++ rest, s'')

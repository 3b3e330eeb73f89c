-- ===== src/Engine/State.antt =====
-- internal/engine/engine.go: the state of one command's execution. The filter is a parameter, its
-- own state a field. Each method holds the mutex from end to end, so it is one step.
use cmdshape.Base.{ℕ, ◌+◌, ◌*◌, Bool, false, List, [], ◌∷◌, Text, ℤ, pos, length}
use cmdshape.Contracts.{Action, Command, args_for_matching, Context}
use cmdshape.Engine.Buffer
use cmdshape.Engine.Buffer.{
  BufferEntry, OrderedBuffer, new_ordered_buffer, new_buffer_entry, add_at, remove_last_entries,
  remove_last, sorted_entries, sort_by_sequence, lines, concat_by, next_u64,
}

-- `CandidateBufferLimit`
abbrev pub candidate_buffer_limit : ℕ
candidate_buffer_limit = 8 * 1024 * 1024

pub record State (F : Type 0) : Type 0 where
  pub filter_state : F
  pub command : Command
  pub buffer : OrderedBuffer
  pub raw_entries : List BufferEntry
  pub recovery : List BufferEntry
  pub raw_bytes : ℕ
  pub buffer_limit : ℕ
  pub next : ℕ
  pub exit_code : ℤ
  pub passthrough : Bool

-- The result of a call that changes the state: the action, the entries to print, the state.
abbrev pub Outcome : Type 0 → Type 0
Outcome F = Action × List BufferEntry × State F

unfoldable pub transformed_bytes : List BufferEntry → ℕ
transformed_bytes [] = 0
transformed_bytes (e ∷ es) = length e.transformed + transformed_bytes es

unfoldable pub join_original : List BufferEntry → Text
join_original es = concat_by (λ e. e.original) es

module _ {F : Type 0} where
  unfoldable pub new_state_with_limit : F → Command → ℕ → State F
  new_state_with_limit f command limit = record {
    filter_state = f;
    command = command;
    buffer = new_ordered_buffer;
    raw_entries = [];
    recovery = [];
    raw_bytes = 0;
    buffer_limit = limit;
    next = 0;
    exit_code = pos 0;
    passthrough = false;
  }

  unfoldable pub new_state : F → Command → State F
  new_state f command = new_state_with_limit f command candidate_buffer_limit

  -- `Args`, `BufferedLines`, `BufferedCount` and `ExitCode`, as the filter is given them.
  unfoldable pub context : State F → Context
  context s = record {
    args = args_for_matching s.command;
    buffered_count = λ stream. Buffer.count stream s.buffer;
    buffered_lines = λ stream. lines stream s.buffer;
    exit_code = s.exit_code;
  }

  unfoldable pub take_raw_entries : State F → List BufferEntry × State F
  take_raw_entries s = (sort_by_sequence s.raw_entries, record s { raw_entries = [] })

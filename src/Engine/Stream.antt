-- ===== src/Engine/Stream.antt =====
-- internal/engine/engine.go: `applyStream`, what the engine does with one line of output.
use Prim.Native.Nat.{max}
pub mod Branches
use cmdshape.Base.{
  ℕ, zero, suc, ◌+◌, ◌-◌, ◌*◌, Bool, true, false, ◌&&◌, ◌||◌, List, [], ◌∷◌, ◌++◌, Option, none,
  some, Text, ℤ, pos, length, drop_last, ltb, leb, ◌==◌, if◌then◌else◌, is_empty,
}
use cmdshape.Contracts.{
  Stream, combined, stdout, stderr, unset, stream_eq, ActionKind, keep, emit, ignore, replace,
  Action, plain, Command, args_for_matching, Context, Filter,
}
use cmdshape.Engine.Buffer
use cmdshape.Engine.Buffer.{
  BufferEntry, OrderedBuffer, new_ordered_buffer, new_buffer_entry, add_at, remove_last_entries,
  remove_last, sorted_entries, sort_by_sequence, lines, concat_by, next_u64,
}
use cmdshape.Engine.State.{
  State, Outcome, transformed_bytes, join_original, context, take_raw_entries,
}

-- The buffer after an `ActionReplace` for the line `raw`.
unfoldable pub replace_line : Action → BufferEntry → OrderedBuffer → OrderedBuffer
replace_line action raw b =
    let added = add_at raw.sequence raw.stream raw.original raw.original b in
    let (removed, rest) = remove_last_entries raw.stream (max action.replace_count 1) added in
    if is_empty action.output then rest else elim removed [
      | [] ↦ add_at raw.sequence raw.stream raw.original action.output rest
      | r ∷ rs ↦ add_at r.sequence raw.stream (join_original (r ∷ rs)) action.output rest
    ]

module _ {F : Type 0} where
  unfoldable pub passthrough_entry : Stream → Text → State F → BufferEntry × State F
  passthrough_entry stream line s =
      (new_buffer_entry s.next stream line line, record s { next = next_u64 s.next })

  -- The switch of `applyStream` on the filter's action; `raw` is the line's entry, and the state
  -- holds it among its raw entries.
  unfoldable pub apply_line_action : Action → BufferEntry → State F → Outcome F
  apply_line_action action raw s = elim action.kind [
    | ignore ↦ (action, [], s)
    | emit ↦ (
      action,
      raw ∷ [],
      record s {
        raw_entries = drop_last s.raw_entries;
        raw_bytes = s.raw_bytes - length raw.original;
      },
    )
    | replace ↦ (action, [], record s { buffer = replace_line action raw s.buffer })
    | keep ↦ (
      action,
      [],
      record s { buffer = add_at raw.sequence raw.stream raw.original raw.original s.buffer },
    )
  ]

  -- `applyStream` from where the line has been recorded.
  unfoldable pub filter_line :
      (F → Text → Context → Action × F) → BufferEntry → Text → State F → Outcome F
  filter_line filter_action raw line s =
      let (action, f) = filter_action s.filter_state line (context s) in
      apply_line_action action raw (record s { filter_state = f })

  -- the state once the line is recorded among the raw entries
  unfoldable pub record_line : Stream → Text → State F → State F
  record_line stream line s = record s {
    raw_entries = s.raw_entries ++ new_buffer_entry s.next stream line line ∷ [];
    raw_bytes = s.raw_bytes + length line;
    next = next_u64 s.next;
  }

  unfoldable pub over_limit : State F → Bool
  over_limit s = ltb 0 s.buffer_limit && ltb s.buffer_limit s.raw_bytes

  -- Give up filtering: everything that is retained is printed raw.
  unfoldable pub flush_raw : State F → Outcome F
  flush_raw s =
      let (entries, s') =
        take_raw_entries (record s { passthrough = true; buffer = Buffer.clear s.buffer }) in
      (plain keep, entries, s')

  unfoldable pub apply_stream :
      (F → Text → Context → Action × F) → Stream → Text → State F → Outcome F
  apply_stream filter_action stream line s =
      let recorded = record_line stream line s in
      if s.passthrough
      then (let (entry, s') = passthrough_entry stream line s in (plain keep, entry ∷ [], s'))
      else if over_limit recorded
      then flush_raw recorded
      else filter_line filter_action (new_buffer_entry s.next stream line line) line recorded

  module _ (filter : Filter F) where
    unfoldable pub stdout_action : Text → State F → Outcome F
    stdout_action line s = apply_stream filter.on_stdout stdout line s

    unfoldable pub stderr_action : Text → State F → Outcome F
    stderr_action line s = apply_stream filter.on_stderr stderr line s

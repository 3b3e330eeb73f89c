-- ===== src/Engine/Exit.antt =====
-- internal/engine/engine.go: `Exit`, what the engine does when the command has ended.
use Prim.Native.Nat.{max}
pub mod Target
use cmdshape.Base.{
  ℕ, zero, suc, ◌+◌, ◌-◌, ◌*◌, Bool, true, false, ◌&&◌, ◌||◌, List, [], ◌∷◌, ◌++◌, Option, none,
  some, Text, ℤ, pos, length, drop_last, ltb, leb, ◌==◌, if◌then◌else◌, is_empty,
}
use cmdshape.Contracts.{
  Stream, combined, stdout, stderr, unset, stream_eq, ActionKind, keep, emit, ignore, replace,
  Action, plain, Command, args_for_matching, Context, Filter,
}
use cmdshape.Engine.Buffer
use cmdshape.Engine.Buffer.{
  BufferEntry, OrderedBuffer, new_ordered_buffer, new_buffer_entry, add_at, remove_last_entries,
  remove_last, sorted_entries, sort_by_sequence, lines, concat_by, next_u64,
}
use cmdshape.Engine.State.{
  State, Outcome, transformed_bytes, join_original, context, take_raw_entries,
}

-- The loop of `singleBufferedStream` with the stream seen so far: the stream, and whether the
-- entries are mixed.
scan_streams : Stream → List BufferEntry → Stream × Bool
scan_streams seen [] = (seen, false)
scan_streams seen (e ∷ es) =
    let first = scan_streams e.stream es in
    let same = scan_streams seen es in
    if stream_eq seen unset then first else if stream_eq seen e.stream then same else (unset, true)

unfoldable pub single_buffered_stream : List BufferEntry → Stream × Bool
unfolding scan_streams
single_buffered_stream es = scan_streams unset es

unfoldable pub exit_replace_count : OrderedBuffer → Stream → ℕ → ℕ
exit_replace_count b stream n = if ltb 0 n then n else Buffer.count stream b

-- `exitActionTarget`; `none` where the source answers that the target is not safe.
unfoldable pub exit_action_target : Stream → OrderedBuffer → Option Stream
exit_action_target unset b = some stdout
exit_action_target stdout b = some stdout
exit_action_target stderr b = some stderr
exit_action_target combined b =
    let (stream, mixed) = single_buffered_stream (sorted_entries b) in
    if mixed then none else if stream_eq stream unset then some stdout else some stream

module _ {F : Type 0} where
  unfoldable pub apply_exit_replacement : Action → Stream → State F → State F
  apply_exit_replacement action target s =
      let (removed, rest) =
        remove_last_entries target (exit_replace_count s.buffer target action.replace_count)
          s.buffer in
      if is_empty action.output then record s { buffer = rest } else elim removed [
        | [] ↦ record s {
          next = next_u64 s.next;
          buffer = add_at s.next target [] action.output rest;
        }
        | r ∷ rs ↦ record s {
          buffer = add_at r.sequence target (join_original (r ∷ rs)) action.output rest;
        }
      ]

  unfoldable pub apply_exit_action : Action → Stream → State F → State F
  apply_exit_action action target s = elim action.kind [
    | ignore ↦ record s { buffer = (remove_last target (Buffer.count target s.buffer) s.buffer).1 }
    | replace ↦ apply_exit_replacement action target s
    | keep ↦ s
    | emit ↦ s
  ]

  -- The loop of `applyExitActions`, and whether every target was safe.
  unfoldable pub apply_exit_loop : List Action → State F → Bool × State F
  apply_exit_loop [] s = (true, s)
  apply_exit_loop (action ∷ actions) s =
      let skip = apply_exit_loop actions s in
      let apply =
        λ (target : Stream). apply_exit_loop actions (apply_exit_action action target s) in
      elim action.kind [
        | keep ↦ skip
        | emit ↦ skip
        | _ ↦ elim (exit_action_target action.stream s.buffer) [
          | none ↦ (false, s)
          | some target ↦ apply target
        ]
      ]

  unfoldable pub finalize_exit_entries : State F → List BufferEntry × State F
  finalize_exit_entries s =
      let entries = sorted_entries s.buffer in
      let cleared = record s { buffer = Buffer.clear s.buffer } in
      if ltb 0 s.raw_bytes && leb s.raw_bytes (transformed_bytes entries)
      then take_raw_entries (record cleared { passthrough = true })
      else (entries, record cleared { raw_entries = [] })

  unfoldable pub apply_exit_actions : List Action → State F → List BufferEntry × State F
  apply_exit_actions actions s =
      let (safe, s') = apply_exit_loop actions (record s { recovery = s.raw_entries }) in
      if s.passthrough
      then ([], s)
      else if safe
      then finalize_exit_entries s'
      else take_raw_entries (record s' { passthrough = true })

  module _ (filter : Filter F) where
    unfoldable pub exit_actions : State F → List Action × State F
    exit_actions s = elim filter.on_stdout_exit_actions [
      | some many ↦
          let (actions, f) = many s.filter_state (context s) in
          (actions, record s { filter_state = f })
      | none ↦
          let (action, f) = filter.on_stdout_exit s.filter_state (context s) in
          (action ∷ [], record s { filter_state = f })
    ]

    -- `Exit`
    unfoldable pub exit : ℤ → State F → List BufferEntry × State F
    exit code s =
        let coded = record s { exit_code = code } in
        let (actions, s') = exit_actions coded in
        if s.passthrough then ([], coded) else apply_exit_actions actions s'

    unfoldable pub exit_action : ℤ → State F → Outcome F
    exit_action code s =
        let coded = record s { exit_code = code } in
        let (actions, s') = exit_actions coded in
        let (entries, s'') = apply_exit_actions actions s' in
        if s.passthrough
        then (plain keep, [], coded)
        else (elim actions [ [] ↦ plain keep | a ∷ as' ↦ a ], entries, s'')

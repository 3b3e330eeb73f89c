-- ===== src/Engine/Tests.antt =====
-- Runs of the engine on small inputs.
use cmdshape.Base.{
  ℕ, ◌+◌, ◌≤◌, ◌<◌, true, false, List, [], ◌∷◌, ◌++◌, map, none, some, Text, pos, codes, Perm, ◌≡◌,
  refl, arith, select, take_last, length, All, if◌then◌else◌, ◌≢◌, has_prefix,
}
use cmdshape.Contracts.{
  combined, stdout, stderr, unset, Command, Action, Context, Filter, plain, keep, ignore, replace,
  passthrough_filter,
}
use cmdshape.Engine.Buffer.{
  OrderedBuffer, new_ordered_buffer, add, add_at, count, remove_last_entries, sorted_entries,
  sort_by_sequence, in_stream, lines, clear, new_buffer_entry, increment, next_u64,
}
use cmdshape.Engine.Buffer.{BufferEntry}
use cmdshape.Engine.Buffer.Remove.{out_of_stream, remove_last_entries_lem}
use cmdshape.Engine.Buffer.Counts.{
  IsCounted, Operation, adding, removing_last, perform_all, count-perform_all,
}
use cmdshape.Engine.State.{
  State, new_state_with_limit, transformed_bytes, context, take_raw_entries, join_original,
}
use cmdshape.Engine.Stream.{
  apply_stream, stdout_action, stderr_action, record_line, over_limit, flush_raw, filter_line,
  apply_line_action, replace_line, passthrough_entry,
}
use cmdshape.Engine.Exit.{
  exit, exit_actions, apply_exit_actions, apply_exit_loop, finalize_exit_entries,
  exit_action_target, single_buffered_stream,
}
use cmdshape.Engine.Exit.Target.{OnStream, exit_action_target_lem}
use cmdshape.Engine.Run.{Event, stdout_line, stderr_line, native, printed, feed, run, step}
use cmdshape.Engine.Run.Account.{native_bytes, raw_entries-le-limit, run-le-native}
use cmdshape.Engine.Run.Conserve.{run-perm}
use cmdshape.Engine.Run.Recover.{run-recovery}
use cmdshape.Engine.Run.Transparent.{run-passthrough_filter}

abbrev demo : Command
demo = record {
  command_id = codes "cmd-1";
  raw_input = codes "demo";
  args = codes "demo" ∷ [];
  matching_args = none;
  tool = codes "demo";
  dispatch = codes "demo";
}

-- Drops the lines that begin with d, replaces those that begin with r, and keeps the others.
abbrev shape_line : ℕ → Text → Context → Action × ℕ
shape_line n line c = (
  if has_prefix line (codes "d")
      then plain ignore
      else if has_prefix line (codes "r")
      then record (plain replace) { output = codes "x" }
      else plain keep,
  n + 1,
)

-- Its state counts the lines.
abbrev shaper : Filter ℕ
shaper = record {
  on_stdout = shape_line;
  on_stderr = shape_line;
  on_stdout_exit = λ n c. (plain keep, n);
  on_stdout_exit_actions = none;
  clone_filter = none;
}

abbrev three_lines : List Event
three_lines =
    stdout_line (codes "keep") ∷ stderr_line (codes "drop") ∷ stdout_line (codes "replace") ∷ []

shaped :
    map printed (run shaper three_lines (pos 0) (new_state_with_limit 0 demo 100)).0
    ≡ (stdout, codes "keep") ∷ (stdout, codes "x") ∷ []
unfolding run feed step stdout_action stderr_action apply_stream record_line over_limit filter_line
    apply_line_action replace_line passthrough_entry flush_raw context take_raw_entries
    join_original new_state_with_limit exit exit_actions apply_exit_actions apply_exit_loop
    finalize_exit_entries new_ordered_buffer add_at new_buffer_entry remove_last_entries
    sorted_entries sort_by_sequence transformed_bytes clear increment next_u64 in_stream
shaped = refl

-- The second line takes the run over its limit of 6 bytes.
abbrev small : State ℕ
small = new_state_with_limit 0 demo 6

small_gives_up : (run shaper three_lines (pos 0) small).1.passthrough ≡ true
unfolding run feed step stdout_action stderr_action apply_stream record_line over_limit filter_line
    apply_line_action replace_line passthrough_entry flush_raw context take_raw_entries
    join_original new_state_with_limit exit exit_actions apply_exit_actions apply_exit_loop
    finalize_exit_entries new_ordered_buffer add_at new_buffer_entry remove_last_entries
    sorted_entries sort_by_sequence transformed_bytes clear increment next_u64 in_stream
small_gives_up = refl

run-perm_example :
    Perm (map printed (run shaper three_lines (pos 0) small).0) (map native three_lines)
run-perm_example = run-perm shaper 0 demo 6 three_lines (pos 0) small_gives_up

large_filters : (feed shaper three_lines (new_state_with_limit 0 demo 100)).1.passthrough ≡ false
unfolding run feed step stdout_action stderr_action apply_stream record_line over_limit filter_line
    apply_line_action replace_line passthrough_entry flush_raw context take_raw_entries
    join_original new_state_with_limit exit exit_actions apply_exit_actions apply_exit_loop
    finalize_exit_entries new_ordered_buffer add_at new_buffer_entry remove_last_entries
    sorted_entries sort_by_sequence transformed_bytes clear increment next_u64 in_stream
large_filters = refl

run-recovery_example :
    Perm
      (map printed (
        (feed shaper three_lines (new_state_with_limit 0 demo 100)).0
        ++ (run shaper three_lines (pos 0) (new_state_with_limit 0 demo 100)).1.recovery))
      (map native three_lines)
run-recovery_example = run-recovery shaper (pos 0) 0 demo 100 three_lines large_filters

large_retains : (feed shaper three_lines (new_state_with_limit 0 demo 100)).1.raw_bytes ≡ 15
unfolding run feed step stdout_action stderr_action apply_stream record_line over_limit filter_line
    apply_line_action replace_line passthrough_entry flush_raw context take_raw_entries
    join_original new_state_with_limit exit exit_actions apply_exit_actions apply_exit_loop
    finalize_exit_entries new_ordered_buffer add_at new_buffer_entry remove_last_entries
    sorted_entries sort_by_sequence transformed_bytes clear increment next_u64 in_stream
large_retains = refl

large_retains_some : 0 < (feed shaper three_lines (new_state_with_limit 0 demo 100)).1.raw_bytes
large_retains_some = omega (arith, large_retains)

run-le-native_example :
    transformed_bytes (run shaper three_lines (pos 0) (new_state_with_limit 0 demo 100)).0
    ≤ native_bytes three_lines
run-le-native_example = run-le-native shaper 0 demo 100 three_lines (pos 0) large_retains_some

raw_entries-le-limit_example : transformed_bytes (feed shaper three_lines small).1.raw_entries ≤ 6
raw_entries-le-limit_example = raw_entries-le-limit shaper 0 demo 6 three_lines (omega arith)

run-passthrough_filter_example :
    map printed (run passthrough_filter three_lines (pos 1) small).0 ≡ map native three_lines
run-passthrough_filter_example = run-passthrough_filter 0 demo 6 three_lines (pos 1)

-- Two lines of stdout around one of stderr, the last with an early sequence.
abbrev mixed : OrderedBuffer
mixed =
    add_at 0 stdout (codes "c") (codes "c")
      (add stderr (codes "b") (add stdout (codes "a") new_ordered_buffer))

abbrev mixed_operations : List Operation
mixed_operations =
    adding stdout (codes "a")
    ∷ adding stderr (codes "b")
    ∷ adding stdout (codes "c")
    ∷ removing_last stdout 1
    ∷ []

mixed_in_order : lines combined mixed ≡ codes "a" ∷ codes "c" ∷ codes "b" ∷ []
unfolding lines sorted_entries add add_at new_ordered_buffer in_stream next_u64
mixed_in_order = refl

remove_last_entries_lem_example :
    ((remove_last_entries stdout 1 mixed).0 ≡ take_last 1 (select (in_stream stdout) mixed.entries))
    × ((front : List BufferEntry) × (back : List BufferEntry) × (mixed.entries ≡ front ++ back)
        × ((remove_last_entries stdout 1 mixed).1.entries
            ≡ front ++ select (out_of_stream stdout) back)
        × ((remove_last_entries stdout 1 mixed).0 ≡ select (in_stream stdout) back))
remove_last_entries_lem_example = remove_last_entries_lem stdout 1 mixed

count-perform_all_example :
    count stdout (perform_all mixed_operations new_ordered_buffer)
    ≡ length (select (in_stream stdout) (perform_all mixed_operations new_ordered_buffer).entries)
count-perform_all_example = count-perform_all mixed_operations stdout

mixed-IsCounted : IsCounted mixed
unfolding add new_ordered_buffer
mixed-IsCounted combined = refl
mixed-IsCounted stdout = refl
mixed-IsCounted stderr = refl
mixed-IsCounted unset = refl

mixed_streams : All (λ e. e.stream ≢ unset) (sorted_entries mixed)
unfolding sorted_entries add new_ordered_buffer
mixed_streams = (λ e. cc, (λ e. cc, (λ e. cc, tt)))

exit_action_target_lem_example :
    (exit_action_target combined mixed ≡ some stdout → All (OnStream stdout) (sorted_entries mixed))
    × (exit_action_target combined mixed ≡ none → ¬ All (OnStream stdout) (sorted_entries mixed))
exit_action_target_lem_example = exit_action_target_lem mixed stdout mixed_streams

mixed_is_unsafe : exit_action_target combined mixed ≡ none
unfolding exit_action_target single_buffered_stream sorted_entries add new_ordered_buffer
mixed_is_unsafe = refl

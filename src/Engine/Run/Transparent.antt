-- ===== src/Engine/Run/Transparent.antt =====
-- With the passthrough filter the engine prints the command's own output.
use mathlib.Core.List.{map-append}
use mathlib.Core.Path.{ap₂}
use cmdshape.Base.{
  ℕ, false, List, [], ◌∷◌, ◌++◌, ◌≡◌, refl, map, append-nil, arith, Bool-cases, inl, inr, ◌∙◌, Text,
  ℤ,
}
use cmdshape.Contracts.{
  Stream, stdout, stderr, passthrough_filter, plain, emit, Action, Context, Command,
}
use cmdshape.Engine.Buffer.{
  new_buffer_entry, new_ordered_buffer, clear, sort_by_sequence, sorted_entries,
}
use cmdshape.Engine.State.{State, take_raw_entries, new_state_with_limit}
use cmdshape.Engine.Stream.{
  stdout_action, stderr_action, apply_stream, filter_line, apply_line_action, record_line,
  flush_raw, passthrough_entry,
}
use cmdshape.Engine.Exit.{exit, exit_actions, apply_exit_loop, finalize_exit_entries}
use cmdshape.Engine.Stream.Branches.{apply_stream-cases}
use cmdshape.Engine.Run.Raw.{exit_filtering, exit_passing, apply_exit_actions_filtering}
use cmdshape.Engine.Run.{Event, stdout_line, stderr_line, native, printed, step, feed, run}

-- Nothing is retained: neither raw lines nor candidates.
record IsIdle {F : Type 0} (s : State F) : Type 0 where
  no_raw : s.raw_entries ≡ []
  no_bytes : s.passthrough ≡ false → s.raw_bytes ≡ 0
  no_candidates : s.buffer.entries ≡ []

module _ {F : Type 0} where
  abbrev emit_line : F → Text → Context → Action × F
  emit_line f _ _ = (plain emit, f)

  apply_stream-emit :
      (stream : Stream) (line : Text) (s : State F)
      → IsIdle s
      → (map printed (apply_stream emit_line stream line s).1 ≡ (stream, line) ∷ [])
        × IsIdle (apply_stream emit_line stream line s).2
  unfolding passthrough_entry flush_raw take_raw_entries filter_line record_line new_buffer_entry
      apply_line_action clear sort_by_sequence
  apply_stream-emit stream line s i = elim (apply_stream-cases emit_line stream line s) [
    | inl (on, e) ↦
        rw e
          (refl, record { no_raw = i.no_raw; no_bytes = λ h. cc; no_candidates = i.no_candidates })
    | inr (inl (off, over, e)) ↦
        rw (e, i.no_raw) (refl, record { no_raw = refl; no_bytes = λ h. cc; no_candidates = refl })
    | inr (inr (off, within, e)) ↦
        rw (e, i.no_raw)
          (
            refl,
            record {
              no_raw = refl;
              no_bytes = λ _. omega (arith, i.no_bytes off);
              no_candidates = i.no_candidates;
            },
          )
  ]

  step-passthrough_filter :
      (e : Event) (s : State F)
      → IsIdle s
      → (map printed (step passthrough_filter e s).0 ≡ native e ∷ [])
        × IsIdle (step passthrough_filter e s).1
  unfolding step stdout_action stderr_action passthrough_filter
  step-passthrough_filter (stdout_line l) s i = apply_stream-emit stdout l s i
  step-passthrough_filter (stderr_line l) s i = apply_stream-emit stderr l s i

  feed-passthrough_filter :
      (es : List Event) (s : State F)
      → IsIdle s
      → (map printed (feed passthrough_filter es s).0 ≡ map native es)
        × IsIdle (feed passthrough_filter es s).1
  unfolding feed
  feed-passthrough_filter [] s i = (refl, i)
  feed-passthrough_filter (e ∷ es) s i =
      let (now, i') = step-passthrough_filter e s i in
      let (later, i'') = feed-passthrough_filter es (step passthrough_filter e s).1 i' in
      (map-append printed (step passthrough_filter e s).0 _ ∙ ap₂ ◌++◌ now later, i'')

  exit-passthrough_filter :
      (code : ℤ) (s : State F) → IsIdle s → (exit passthrough_filter code s).0 ≡ []
  unfolding exit_actions passthrough_filter apply_exit_loop finalize_exit_entries sorted_entries
      sort_by_sequence
  exit-passthrough_filter code s i = elim (Bool-cases s.passthrough) [
    | inl on ↦ rw (exit_passing passthrough_filter code s on) refl
    | inr off ↦ rw (exit_filtering passthrough_filter code s off) (
        rw (apply_exit_actions_filtering (plain emit ∷ []) (record s { exit_code = code }) off)
          (rw (i.no_bytes off, i.no_candidates) refl))
  ]

  -- With the passthrough filter a run prints the command's lines as they are, on their own streams
  -- and in their order, and nothing more at the exit, whatever the limit.
  pub run-passthrough_filter :
      (f : F) (c : Command) (limit : ℕ) (es : List Event) (code : ℤ)
      → map printed (run passthrough_filter es code (new_state_with_limit f c limit)).0
        ≡ map native es
  unfolding run
  run-passthrough_filter f c limit es code =
      let start = new_state_with_limit f c limit in
      let (fed, i) = feed-passthrough_filter es start (
        unfold new_state_with_limit new_ordered_buffer in
        record { no_raw = refl; no_bytes = λ _. refl; no_candidates = refl }) in
      rw (exit-passthrough_filter code (feed passthrough_filter es start).1 i, append-nil) fed

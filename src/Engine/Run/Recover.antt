-- ===== src/Engine/Run/Recover.antt =====
-- The exit's order, and the record that it leaves for recovery.
use cmdshape.Base.{
  ℕ, false, ◌&&◌, List, ◌++◌, ◌≡◌, map, arith, Bool-cases, inl, inr, ◌∙◌, ℤ, Perm, ltb, leb,
}
use cmdshape.Contracts.{Filter, Command}
use cmdshape.Engine.Buffer.{sort_by_sequence, sorted_entries}
use cmdshape.Engine.State.{State, take_raw_entries, transformed_bytes, new_state_with_limit}
use cmdshape.Engine.Exit.{exit, exit_actions, apply_exit_loop, finalize_exit_entries}
use cmdshape.Engine.Run.Raw.{
  exit_filtering, exit_passing, apply_exit_actions_filtering, apply_exit_loop-SameRaw,
  exit_actions-SameRaw,
}
use cmdshape.Engine.Buffer.Order.{IsSorted, sort-IsSorted}
use cmdshape.Engine.Run.Conserve.{feed-perm}
use cmdshape.Engine.Run.{Event, native, printed, feed, run}

module _ {F : Type 0} where
  finalize-IsSorted : (s : State F) → IsSorted (finalize_exit_entries s).0
  unfolding finalize_exit_entries take_raw_entries sorted_entries
  finalize-IsSorted s =
      elim (Bool-cases (
        ltb 0 s.raw_bytes
        && leb s.raw_bytes (transformed_bytes (sort_by_sequence s.buffer.entries)))) [
          | inl grown ↦ rw grown (sort-IsSorted s.raw_entries)
          | inr fits ↦ rw fits (sort-IsSorted s.buffer.entries)
        ]

  finalize-recovery : (s : State F) → (finalize_exit_entries s).1.recovery ≡ s.recovery
  unfolding finalize_exit_entries take_raw_entries
  finalize-recovery s = ground arith

module _ {F : Type 0} (filter : Filter F) (code : ℤ) where
  -- The entries that the exit prints are in the order of their sequences, on every branch.
  pub exit-IsSorted : (s : State F) → IsSorted (exit filter code s).0
  unfolding finalize_exit_entries take_raw_entries sorted_entries
  exit-IsSorted s = elim (Bool-cases s.passthrough) [
    | inl on ↦ rw (exit_passing filter code s on) tt
    | inr off ↦
        let coded = exit_actions filter (record s { exit_code = code }) in
        let open_state = (exit_actions-SameRaw filter (record s { exit_code = code })).flag ∙ off in
        let looped = apply_exit_loop coded.0 (record coded.1 { recovery = coded.1.raw_entries }) in
        rw
          (
            exit_filtering filter code s off,
            apply_exit_actions_filtering coded.0 coded.1 open_state,
          )
          (elim (Bool-cases looped.0) [
            | inl safe ↦ rw safe (finalize-IsSorted looped.1)
            | inr mixed ↦ rw mixed (sort-IsSorted looped.1.raw_entries)
          ])
  ]

  exit-recovery :
      (s : State F) → s.passthrough ≡ false → (exit filter code s).1.recovery ≡ s.raw_entries
  unfolding take_raw_entries
  exit-recovery s off =
      let coded = exit_actions filter (record s { exit_code = code }) in
      let same = exit_actions-SameRaw filter (record s { exit_code = code }) in
      let start = record coded.1 { recovery = coded.1.raw_entries } in
      let kept = (apply_exit_loop-SameRaw coded.0 start).saved in
      rw
        (
          exit_filtering filter code s off,
          apply_exit_actions_filtering coded.0 coded.1 (same.flag ∙ off),
        )
        (elim (Bool-cases (apply_exit_loop coded.0 start).0) [
          | inl safe ↦
              rw safe (finalize-recovery (apply_exit_loop coded.0 start).1 ∙ kept ∙ same.entries)
          | inr mixed ↦ rw mixed (kept ∙ same.entries)
        ])

  -- A run that does not give up filtering leaves the lines that it did not print at once for
  -- recovery: with those that it did they are the command's lines, unchanged, each once.
  pub run-recovery :
      (f : F) (c : Command) (limit : ℕ) (es : List Event)
      → (feed filter es (new_state_with_limit f c limit)).1.passthrough ≡ false
      → Perm
          (map printed (
            (feed filter es (new_state_with_limit f c limit)).0
            ++ (run filter es code (new_state_with_limit f c limit)).1.recovery))
          (map native es)
  unfolding run
  run-recovery f c limit es off =
      let start = new_state_with_limit f c limit in
      rw (exit-recovery (feed filter es start).1 off)
        (unfold new_state_with_limit in feed-perm filter es start)

-- ===== src/Engine/Run/Raw.antt =====
-- What the exit leaves alone, and what holds of the raw record between two calls.
use cmdshape.Base.{
  ◌⊎◌, ◌<◌, Bool, true, false, ◌&&◌, List, [], ◌∷◌, ◌≡◌, refl, ap, arith, Bool-cases, if◌then◌else◌,
  inl, inr, ◌∙◌, ℤ, Option-cases, ltb, leb,
}
use cmdshape.Contracts.{Stream, ActionKind, Action, Filter}
use cmdshape.Engine.Buffer.{BufferEntry, sort_by_sequence, sorted_entries}
use cmdshape.Engine.State.{State, take_raw_entries, transformed_bytes}
use cmdshape.Engine.Exit.{
  exit, exit_actions, apply_exit_loop, apply_exit_actions, apply_exit_action,
  apply_exit_replacement, finalize_exit_entries, exit_action_target,
}

-- The two states have the same raw record, and both filter or neither does.
pub record SameRaw {F : Type 0} (s t : State F) : Type 0 where
  pub entries : t.raw_entries ≡ s.raw_entries
  pub bytes : t.raw_bytes ≡ s.raw_bytes
  pub flag : t.passthrough ≡ s.passthrough
  pub saved : t.recovery ≡ s.recovery

module _ {F : Type 0} where
  apply_exit_action-SameRaw :
      (k : ActionKind) (action : Action) (target : Stream) (s : State F)
      → action.kind ≡ k
      → SameRaw s (apply_exit_action action target s)
  unfolding apply_exit_action apply_exit_replacement
  apply_exit_action-SameRaw k action target s h = ground arith

  pub apply_exit_loop-SameRaw :
      (actions : List Action) (s : State F) → SameRaw s (apply_exit_loop actions s).1
  unfolding apply_exit_loop
  apply_exit_loop-SameRaw [] s = ground arith
  apply_exit_loop-SameRaw (a ∷ as') s = elim (Option-cases (exit_action_target a.stream s.buffer)) [
    | inl mixed ↦ ground (arith, apply_exit_loop-SameRaw as' s)
    | inr (target, safe) ↦ ground (
      arith,
      apply_exit_loop-SameRaw as' s,
      apply_exit_action-SameRaw a.kind a target s refl,
      apply_exit_loop-SameRaw as' (apply_exit_action a target s),
    )
  ]

  pub exit_actions-SameRaw : (filter : Filter F) (s : State F) → SameRaw s (exit_actions filter s).1
  unfolding exit_actions
  exit_actions-SameRaw filter s = ground arith

  -- How the exit ends: with fewer bytes than are retained, if any are, or with the raw record.
  abbrev pub Ending : State F → List BufferEntry → State F → Type 0
  Ending s entries t =
      ((0 < s.raw_bytes → transformed_bytes entries < s.raw_bytes) × (t.passthrough ≡ false))
      ⊎ ((entries ≡ sort_by_sequence s.raw_entries) × (t.passthrough ≡ true))

  finalize_exit_entries-Ending :
      (s : State F)
      → s.passthrough ≡ false
      → Ending s (finalize_exit_entries s).0 (finalize_exit_entries s).1
  unfolding finalize_exit_entries take_raw_entries
  finalize_exit_entries-Ending s off =
      elim (Bool-cases
        (ltb 0 s.raw_bytes && leb s.raw_bytes (transformed_bytes (sorted_entries s.buffer)))) [
          | inl grown ↦ rw grown (inr (refl, refl))
          | inr fits ↦ rw fits (inl (λ h. ground arith, off))
        ]

  pub apply_exit_actions_filtering :
      (actions : List Action) (s : State F)
      → s.passthrough ≡ false
      → apply_exit_actions actions s ≡ (
          let (safe, s') = apply_exit_loop actions (record s { recovery = s.raw_entries }) in
          if safe
          then finalize_exit_entries s'
          else take_raw_entries (record s' { passthrough = true }))
  unfolding apply_exit_actions
  apply_exit_actions_filtering actions s off =
      ap
        (λ (b : Bool).
          if b
          then ([], s)
          else (let (safe, s') = apply_exit_loop actions (record s { recovery = s.raw_entries }) in
              if safe
              then finalize_exit_entries s'
              else take_raw_entries (record s' { passthrough = true })))
        off

  pub exit_filtering :
      (filter : Filter F) (code : ℤ) (s : State F)
      → s.passthrough ≡ false
      → exit filter code s ≡ (
          let (actions, s') = exit_actions filter (record s { exit_code = code }) in
          apply_exit_actions actions s')
  unfolding exit
  exit_filtering filter code s off =
      ap
        (λ (b : Bool).
          if b
          then ([], record s { exit_code = code })
          else (let (actions, s') = exit_actions filter (record s { exit_code = code }) in
              apply_exit_actions actions s'))
        off

  pub exit_passing :
      (filter : Filter F) (code : ℤ) (s : State F)
      → s.passthrough ≡ true
      → exit filter code s ≡ ([], record s { exit_code = code })
  unfolding exit
  exit_passing filter code s on =
      ap
        (λ (b : Bool).
          if b
          then ([], record s { exit_code = code })
          else (let (actions, s') = exit_actions filter (record s { exit_code = code }) in
              apply_exit_actions actions s'))
        on

  apply_exit_actions-Ending :
      (actions : List Action) (s : State F)
      → s.passthrough ≡ false
      → Ending s (apply_exit_actions actions s).0 (apply_exit_actions actions s).1
  unfolding take_raw_entries
  apply_exit_actions-Ending actions s off =
      let looped = apply_exit_loop actions (record s { recovery = s.raw_entries }) in
      let same = apply_exit_loop-SameRaw actions (record s { recovery = s.raw_entries }) in
      let end = finalize_exit_entries-Ending looped.1 (same.flag ∙ off) in
      rw (apply_exit_actions_filtering actions s off) (elim (Bool-cases looped.0) [
        | inl safe ↦ rw safe (rw (same.entries, same.bytes) at end)
        | inr mixed ↦ rw mixed (inr (ap sort_by_sequence same.entries, refl))
      ])

  pub exit-Ending :
      (filter : Filter F) (code : ℤ) (s : State F)
      → s.passthrough ≡ false
      → Ending s (exit filter code s).0 (exit filter code s).1
  exit-Ending filter code s off =
      let coded = record s { exit_code = code } in
      let same = exit_actions-SameRaw filter coded in
      let end =
        apply_exit_actions-Ending (exit_actions filter coded).0 (exit_actions filter coded).1
          (same.flag ∙ off) in
      rw (exit_filtering filter code s off) (rw (same.entries, same.bytes) at end)

-- ===== src/Engine/Stream/Branches.antt =====
-- The three branches of `applyStream`, as equations.
use cmdshape.Base.{
  Bool, true, false, [], ◌∷◌, ◌≡◌, ap, Text, ◌⊎◌, inl, inr, Bool-cases, if◌then◌else◌, ◌∙◌,
}
use cmdshape.Contracts.{Stream, keep, Action, plain, Context}
use cmdshape.Engine.Buffer.{new_buffer_entry}
use cmdshape.Engine.State.{State, Outcome}
use cmdshape.Engine.Stream.{
  apply_stream, passthrough_entry, record_line, over_limit, flush_raw, filter_line,
}

module _ {F : Type 0} (act : F → Text → Context → Action × F) (stream : Stream) (line : Text)
    (s : State F) where
  abbrev pub passed : Outcome F
  passed =
      (plain keep, (passthrough_entry stream line s).0 ∷ [], (passthrough_entry stream line s).1)

  abbrev pub filtered : Outcome F
  filtered =
      filter_line act (new_buffer_entry s.next stream line line) line (record_line stream line s)

  -- A state that has given up filtering prints the line; one that the line takes over its limit
  -- gives up; any other asks the filter.
  pub apply_stream-cases :
      ((s.passthrough ≡ true) × (apply_stream act stream line s ≡ passed))
      ⊎ ((s.passthrough ≡ false)
          × (over_limit (record_line stream line s) ≡ true)
          × (apply_stream act stream line s ≡ flush_raw (record_line stream line s)))
      ⊎ ((s.passthrough ≡ false)
          × (over_limit (record_line stream line s) ≡ false)
          × (apply_stream act stream line s ≡ filtered))
  unfolding apply_stream
  apply_stream-cases =
      let branch : Bool → Outcome F =
        λ over. if over then flush_raw (record_line stream line s) else filtered in
      let whole : Bool → Bool → Outcome F = λ on over. if on then passed else branch over in
      elim (Bool-cases s.passthrough) [
        | inl on ↦ inl (on, ap (λ b. whole b (over_limit (record_line stream line s))) on)
        | inr off ↦
            let e = ap (λ b. whole b (over_limit (record_line stream line s))) off in
            elim (Bool-cases (over_limit (record_line stream line s))) [
              | inl over ↦ inr (inl (off, over, e ∙ ap branch over))
              | inr within ↦ inr (inr (off, within, e ∙ ap branch within))
            ]
      ]

-- ===== src/Engine/Run/Conserve.antt =====
-- Nothing is lost when the engine gives up filtering.
use mathlib.Core.List.{map-append, perm_append_singleton}
use mathlib.Core.List.Perm
use cmdshape.Base.{
  ℕ, true, List, [], ◌∷◌, ◌++◌, ◌≡◌, refl, ap, map, append-nil, append_assoc, drop_last-snoc,
  Bool-cases, inl, inr, ◌∙◌, sym, Text, ℤ, Perm,
}
use cmdshape.Contracts.{
  Command, stdout, stderr, Stream, ActionKind, keep, emit, ignore, replace, Action, Context, Filter,
}
use cmdshape.Engine.Buffer.{BufferEntry, new_buffer_entry}
use cmdshape.Engine.Buffer.Order.{sort-perm}
use cmdshape.Engine.Stream.Branches.{apply_stream-cases}
use cmdshape.Engine.Run.Raw.{exit-Ending, exit_passing}
use cmdshape.Engine.Run.Account.{feed-IsKept}
use cmdshape.Engine.State.{new_state_with_limit, State, take_raw_entries}
use cmdshape.Engine.Stream.{
  stdout_action, stderr_action, apply_stream, filter_line, apply_line_action, record_line,
  flush_raw, passthrough_entry,
}
use cmdshape.Engine.Run.{Event, stdout_line, stderr_line, native, printed, step, feed, run}

-- `entries` are the entries printed and `s` the state after `line` came in on `stream` at `before`.
abbrev Kept : {F : Type 0} → List BufferEntry → Stream × Text → List BufferEntry → State F → Type 0
Kept before line entries s =
    Perm (map printed (entries ++ s.raw_entries)) (map printed before ++ line ∷ [])

Kept-end :
    (es : List BufferEntry) (e : BufferEntry)
    → Perm (map printed (es ++ e ∷ [])) (map printed es ++ printed e ∷ [])
Kept-end es e = rw map-append (Perm.refl _)

module _ {F : Type 0} where
  apply_line_action-Kept :
      (k : ActionKind) (action : Action) (raw : BufferEntry) (before : List BufferEntry)
      (s : State F)
      → action.kind ≡ k
      → s.raw_entries ≡ before ++ raw ∷ []
      → Kept before
          (printed raw)
          (apply_line_action action raw s).1
          (apply_line_action action raw s).2
  unfolding apply_line_action
  apply_line_action-Kept keep action raw before s k h = rw k (rw h (Kept-end before raw))
  apply_line_action-Kept ignore action raw before s k h = rw k (rw h (Kept-end before raw))
  apply_line_action-Kept replace action raw before s k h = rw k (rw h (Kept-end before raw))
  apply_line_action-Kept emit action raw before s k h = rw k (
      rw h
        (rw drop_last-snoc (Perm.symm (perm_append_singleton (printed raw) (map printed before)))))

  apply_stream-Kept :
      (act : F → Text → Context → Action × F) (stream : Stream) (line : Text) (s : State F)
      → Kept s.raw_entries
          (stream, line)
          (apply_stream act stream line s).1
          (apply_stream act stream line s).2
  unfolding passthrough_entry flush_raw take_raw_entries filter_line record_line new_buffer_entry
  apply_stream-Kept act stream line s = elim (apply_stream-cases act stream line s) [
    | inl (on, e) ↦
        rw e (Perm.symm (perm_append_singleton (stream, line) (map printed s.raw_entries)))
    | inr (inl (off, over, e)) ↦
        rw (e, append-nil)
          (Perm.trans (Perm.map printed (sort-perm _))
            (Kept-end s.raw_entries (new_buffer_entry s.next stream line line)))
    | inr (inr (off, within, e)) ↦ rw e (apply_line_action-Kept _ _ _ s.raw_entries _ refl refl)
  ]

  module _ (filter : Filter F) where
    step-Kept :
        (e : Event) (s : State F)
        → Kept s.raw_entries (native e) (step filter e s).0 (step filter e s).1
    unfolding step stdout_action stderr_action
    step-Kept (stdout_line l) s = apply_stream-Kept filter.on_stdout stdout l s
    step-Kept (stderr_line l) s = apply_stream-Kept filter.on_stderr stderr l s

    -- What was printed and what is retained are the lines that came in.
    pub feed-perm :
        (es : List Event) (s : State F)
        → Perm
            (map printed ((feed filter es s).0 ++ (feed filter es s).1.raw_entries))
            (map printed s.raw_entries ++ map native es)
    unfolding feed
    feed-perm [] s = rw append-nil (Perm.refl _)
    feed-perm (e ∷ es) s =
        let now = (step filter e s).0 in
        let s' = (step filter e s).1 in
        let later = (feed filter es s').0 in
        let rest = (feed filter es s').1.raw_entries in
        let tail = Perm.append_left (map printed now) (feed-perm es s') in
        let head = Perm.append_right (map native es) (step-Kept e s) in
        let whole : map printed ((now ++ later) ++ rest)
            ≡ map printed now ++ map printed (later ++ rest) =
          ap (map printed) (append_assoc now later rest) ∙ map-append printed now (later ++ rest) in
        let middle : map printed now ++ (map printed s'.raw_entries ++ map native es)
            ≡ map printed (now ++ s'.raw_entries) ++ map native es =
          sym (append_assoc (map printed now) (map printed s'.raw_entries) (map native es))
          ∙ ap (λ (t : List (Stream × Text)). t ++ map native es)
              (sym (map-append printed now s'.raw_entries)) in
        let end : (map printed s.raw_entries ++ native e ∷ []) ++ map native es
            ≡ map printed s.raw_entries ++ native e ∷ map native es =
          append_assoc (map printed s.raw_entries) (native e ∷ []) (map native es) in
        rw whole (Perm.trans tail (rw middle (rw end at head)))

    -- A run that ends in passthrough, for whatever reason, has printed every line of the command on
    -- its own stream, unchanged and once, and nothing else.
    pub run-perm :
        (f : F) (c : Command) (limit : ℕ) (es : List Event) (code : ℤ)
        → (run filter es code (new_state_with_limit f c limit)).1.passthrough ≡ true
        → Perm (map printed (run filter es code (new_state_with_limit f c limit)).0) (map native es)
    unfolding run
    run-perm f c limit es code h =
        let start = new_state_with_limit f c limit in
        let fed = (feed filter es start).0 in
        let s = (feed filter es start).1 in
        let i = feed-IsKept filter f c limit es in
        let all : Perm (map printed (fed ++ s.raw_entries)) (map native es) =
          unfold new_state_with_limit in feed-perm es start in
        elim (Bool-cases s.passthrough) [
          | inl on ↦ rw (exit_passing filter code s on) (rw (i.empty on) at all)
          | inr off ↦ elim (exit-Ending filter code s off) [
            | inl (_, off') ↦ absurd (cc)
            | inr (raw, _) ↦
                rw raw (
                  Perm.trans (Perm.map printed (Perm.append_left fed (sort-perm s.raw_entries)))
                    all)
          ]
        ]

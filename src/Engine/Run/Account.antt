-- ===== src/Engine/Run/Account.antt =====
-- The bytes that are printed and retained, and the limit.
use cmdshape.Base.{
  ℕ, ◌+◌, ◌≤◌, ◌<◌, true, false, List, [], ◌∷◌, ◌++◌, ◌≡◌, refl, ap, append-nil, arith, length,
  drop_last-snoc, drop_last, Bool-cases, inl, inr, ◌∙◌, Text, ℤ,
}
use cmdshape.Contracts.{Stream, stdout, stderr, ActionKind, Action, Context, Filter, Command}
use cmdshape.Engine.Buffer.{insert_entry, BufferEntry, new_buffer_entry, sort_by_sequence}
use cmdshape.Engine.State.{
  State, context, take_raw_entries, transformed_bytes, new_state_with_limit,
}
use cmdshape.Engine.Stream.{
  stdout_action, stderr_action, apply_stream, filter_line, apply_line_action, record_line,
  flush_raw, passthrough_entry, over_limit,
}
use cmdshape.Engine.Exit.{exit}
use cmdshape.Engine.Stream.Branches.{apply_stream-cases}
use cmdshape.Engine.Run.Raw.{exit-Ending, exit_passing}
use cmdshape.Engine.Run.{Event, stdout_line, stderr_line, native, step, feed, run}

transformed_bytes-append :
    (xs ys : List BufferEntry)
    → transformed_bytes (xs ++ ys) ≡ transformed_bytes xs + transformed_bytes ys
unfolding transformed_bytes
transformed_bytes-append [] ys = omega arith
transformed_bytes-append (x ∷ xs) ys = omega (arith, transformed_bytes-append xs ys)

transformed_bytes-insert :
    (e : BufferEntry) (es : List BufferEntry)
    → transformed_bytes (insert_entry e es) ≡ length e.transformed + transformed_bytes es
unfolding transformed_bytes insert_entry
transformed_bytes-insert e [] = refl
transformed_bytes-insert e (x ∷ xs) = ground (arith, transformed_bytes-insert e xs)

pub transformed_bytes-sort :
    (es : List BufferEntry) → transformed_bytes (sort_by_sequence es) ≡ transformed_bytes es
unfolding transformed_bytes sort_by_sequence
transformed_bytes-sort [] = refl
transformed_bytes-sort (e ∷ es) =
    omega (arith, transformed_bytes-insert e (sort_by_sequence es), transformed_bytes-sort es)

-- What holds between two calls, `limit` being the limit that the state was made with.
pub record IsKept {F : Type 0} (limit : ℕ) (s : State F) : Type 0 where
  pub limited : s.buffer_limit ≡ limit
  pub empty : s.passthrough ≡ true → s.raw_entries ≡ []
  pub bytes : s.passthrough ≡ false → s.raw_bytes ≡ transformed_bytes s.raw_entries
  pub within : s.passthrough ≡ false → 0 < limit → s.raw_bytes ≤ limit

-- the length of what the command itself would have printed
abbrev pub native_bytes : List Event → ℕ
native_bytes [] = 0
native_bytes (e ∷ es) = length (native e).1 + native_bytes es

module _ {F : Type 0} where
  -- the state in which the filter's action is applied
  abbrev filtering : (F → Text → Context → Action × F) → Stream → Text → State F → State F
  filtering act stream line s = record (record_line stream line s) {
    filter_state = (act s.filter_state line (context (record_line stream line s))).1;
  }

  -- `n` is the length of the line.
  record Accounted (limit n : ℕ) (s : State F) (entries : List BufferEntry) (t : State F)
      : Type 0 where
    kept : IsKept limit t
    total :
        transformed_bytes entries + transformed_bytes t.raw_entries
        ≡ transformed_bytes s.raw_entries + n

  apply_line_action-Accounted :
      (limit : ℕ) (k : ActionKind) (action : Action) (raw : BufferEntry) (s t : State F)
      → action.kind ≡ k
      → t.raw_entries ≡ s.raw_entries ++ raw ∷ []
      → raw.original ≡ raw.transformed
      → IsKept limit t
      → t.passthrough ≡ false
      → Accounted limit
          (length raw.transformed)
          s
          (apply_line_action action raw t).1
          (apply_line_action action raw t).2
  unfolding apply_line_action transformed_bytes
  apply_line_action-Accounted limit k action raw s t ke h same i off =
      let before = transformed_bytes-append s.raw_entries (raw ∷ []) in
      let dropped = ap drop_last h ∙ drop_last-snoc s.raw_entries raw in
      ground (
        arith,
        before,
        dropped,
        i.bytes off,
        i.within off,
        ap transformed_bytes h,
        ap transformed_bytes dropped,
        ap length same,
      )

  apply_stream-Accounted :
      (act : F → Text → Context → Action × F) (stream : Stream) (line : Text) (limit : ℕ)
      (s : State F)
      → IsKept limit s
      → Accounted limit
          (length line)
          s
          (apply_stream act stream line s).1
          (apply_stream act stream line s).2
  unfolding passthrough_entry flush_raw take_raw_entries filter_line record_line new_buffer_entry
      over_limit transformed_bytes
  apply_stream-Accounted act stream line limit s i = elim (apply_stream-cases act stream line s) [
    | inl (on, e) ↦ rw e (record {
      kept = record { limited = i.limited; empty = i.empty; bytes = i.bytes; within = i.within };
      total = omega arith;
    })
    | inr (inl (off, over, e)) ↦
        let raw = new_buffer_entry s.next stream line line in
        let sorted = transformed_bytes-sort (s.raw_entries ++ raw ∷ []) in
        let before = transformed_bytes-append s.raw_entries (raw ∷ []) in
        rw e (record {
          kept = record {
            limited = i.limited;
            empty = λ _. refl;
            bytes = λ h. cc;
            within = λ h. cc;
          };
          total = omega arith;
        })
    | inr (inr (off, within, e)) ↦
        let raw = new_buffer_entry s.next stream line line in
        let before = transformed_bytes-append s.raw_entries (raw ∷ []) in
        let recorded : IsKept limit (filtering act stream line s) = record {
          limited = i.limited;
          empty = λ h. cc;
          bytes = λ _. omega (arith, i.bytes off);
          within = λ _ h. ground (arith, i.limited);
        } in
        rw e (apply_line_action-Accounted limit _ _ _ s _ refl refl refl recorded off)
  ]

  module _ (filter : Filter F) where
    step-Accounted :
        (limit : ℕ) (e : Event) (s : State F)
        → IsKept limit s
        → Accounted limit (length (native e).1) s (step filter e s).0 (step filter e s).1
    unfolding step stdout_action stderr_action
    step-Accounted limit (stdout_line l) s i =
        apply_stream-Accounted filter.on_stdout stdout l limit s i
    step-Accounted limit (stderr_line l) s i =
        apply_stream-Accounted filter.on_stderr stderr l limit s i

    feed-Accounted :
        (limit : ℕ) (es : List Event) (s : State F)
        → IsKept limit s
        → Accounted limit (native_bytes es) s (feed filter es s).0 (feed filter es s).1
    unfolding feed
    feed-Accounted limit [] s i = record {
      kept = i;
      total = unfold transformed_bytes in omega arith;
    }
    feed-Accounted limit (e ∷ es) s i =
        let now = step-Accounted limit e s i in
        let later = feed-Accounted limit es (step filter e s).1 now.kept in
        let split =
          transformed_bytes-append (step filter e s).0 (feed filter es (step filter e s).1).0 in
        record { kept = later.kept; total = omega (arith, now.total, later.total) }

    new_state-IsKept :
        (f : F) (c : Command) (limit : ℕ) → IsKept limit (new_state_with_limit f c limit)
    unfolding new_state_with_limit transformed_bytes
    new_state-IsKept f c limit = record {
      limited = refl;
      empty = λ _. refl;
      bytes = λ _. refl;
      within = λ _ _. omega arith;
    }

    pub feed-IsKept :
        (f : F) (c : Command) (limit : ℕ) (es : List Event)
        → IsKept limit (feed filter es (new_state_with_limit f c limit)).1
    feed-IsKept f c limit es = (feed-Accounted limit es _ (new_state-IsKept f c limit)).kept

    -- The memory that the retained raw lines take stays within the limit, if there is one, whatever
    -- the filter does and however long the output is.
    pub raw_entries-le-limit :
        (f : F) (c : Command) (limit : ℕ) (es : List Event)
        → 0 < limit
        → transformed_bytes (feed filter es (new_state_with_limit f c limit)).1.raw_entries ≤ limit
    unfolding transformed_bytes
    raw_entries-le-limit f c limit es h =
        let s = (feed filter es (new_state_with_limit f c limit)).1 in
        let i = feed-IsKept f c limit es in
        elim (Bool-cases s.passthrough) [
          | inl on ↦ rw (i.empty on) (omega arith)
          | inr off ↦ omega (arith, i.bytes off, i.within off h)
        ]

    -- If raw output is still retained when the command ends, the run has printed no more bytes in
    -- all than the command did.
    pub run-le-native :
        (f : F) (c : Command) (limit : ℕ) (es : List Event) (code : ℤ)
        → 0 < (feed filter es (new_state_with_limit f c limit)).1.raw_bytes
        → transformed_bytes (run filter es code (new_state_with_limit f c limit)).0
          ≤ native_bytes es
    unfolding run transformed_bytes new_state_with_limit
    run-le-native f c limit es code h =
        let start = new_state_with_limit f c limit in
        let fed = (feed filter es start).0 in
        let s = (feed filter es start).1 in
        let account = feed-Accounted limit es start (new_state-IsKept f c limit) in
        let total = account.total in
        let both = transformed_bytes-append fed (exit filter code s).0 in
        elim (Bool-cases s.passthrough) [
          | inl on ↦ rw (exit_passing filter code s on, append-nil) (omega arith)
          | inr off ↦
              let bytes = account.kept.bytes off in
              elim (exit-Ending filter code s off) [
                | inl (fewer, _) ↦ omega (arith, fewer h)
                | inr (raw, _) ↦
                    let same = ap transformed_bytes raw ∙ transformed_bytes-sort s.raw_entries in
                    omega arith
              ]
        ]

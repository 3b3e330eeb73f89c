-- ===== src/Engine/Exit/Target.antt =====
-- Where an exit action goes.
use mathlib.Core.Path.{subst}
use cmdshape.Base.{
  true, false, List, [], ◌∷◌, none, some, ◌≡◌, refl, ◌≢◌, arith, All, Bool-cases, inl, inr, sym,
}
use cmdshape.Contracts.{Stream, combined, unset, stream_eq, stream_eq_sound}
use cmdshape.Engine.Buffer.{BufferEntry, OrderedBuffer, sorted_entries}
use cmdshape.Engine.Exit.{scan_streams, single_buffered_stream, exit_action_target}

stream_eq_refl : (s : Stream) → stream_eq s s ≡ true
stream_eq_refl s = ground arith

abbrev pub OnStream : Stream → BufferEntry → Type 0
OnStream t e = e.stream ≡ t

-- The scan, once it has seen a stream: it answers that stream if all entries are on it.
scan_streams_seen :
    (t : Stream) (es : List BufferEntry)
    → t ≢ unset
    → ((scan_streams t es).1 ≡ false → ((scan_streams t es).0 ≡ t) × All (OnStream t) es)
      × (All (OnStream t) es → (scan_streams t es).1 ≡ false)
unfolding scan_streams
scan_streams_seen t [] h = (λ _. (refl, tt), λ _. refl)
scan_streams_seen t (e ∷ es) h =
    let ih = scan_streams_seen t es h in
    elim (Bool-cases (stream_eq t unset)) [
      | inl is_unset ↦ absurd (h (stream_eq_sound t unset is_unset))
      | inr set ↦ elim (Bool-cases (stream_eq t e.stream)) [
        | inl same ↦
            let on = stream_eq_sound t e.stream same in
            rw set (rw same (λ k. let (a, b) = ih.0 k in (a, (sym on, b)), λ all. ih.1 all.1))
        | inr other ↦
            rw set (rw other (λ k. absurd (cc), λ all. absurd (cc (all.0, stream_eq_refl t))))
      ]
    ]

-- The scan from the start, over entries that all name a stream.
single_buffered_stream_lem :
    (es : List BufferEntry) (t : Stream)
    → All (λ e. e.stream ≢ unset) es
    → ((single_buffered_stream es).1 ≡ false → All (OnStream (single_buffered_stream es).0) es)
      × ((single_buffered_stream es).1 ≡ true → ¬ All (OnStream t) es)
unfolding single_buffered_stream scan_streams
single_buffered_stream_lem [] t h = (λ _. tt, λ k. absurd (cc))
single_buffered_stream_lem (e ∷ es) t h =
    let (sound, complete) = scan_streams_seen e.stream es h.0 in
    (
      λ k. let (a, b) = sound k in (sym a, subst (λ (u : Stream). All (OnStream u) es) (sym a) b),
      λ k all.
          let none_mixed =
            complete (subst (λ (u : Stream). All (OnStream u) es) (sym all.0) all.1) in
          absurd (cc),
    )

unset-All :
    (es : List BufferEntry) (t : Stream)
    → All (λ e. e.stream ≢ unset) es
    → All (OnStream unset) es
    → All (OnStream t) es
unset-All [] t h a = tt
unset-All (e ∷ es) t h a = absurd (h.0 a.0)

-- In a buffer whose entries are all on a named stream: a stream that an exit action on the combined
-- stream goes to is that of every buffered entry, and if the action has no safe target, there is no
-- stream that all the entries are on.
pub exit_action_target_lem :
    (b : OrderedBuffer) (t : Stream)
    → All (λ e. e.stream ≢ unset) (sorted_entries b)
    → (exit_action_target combined b ≡ some t → All (OnStream t) (sorted_entries b))
      × (exit_action_target combined b ≡ none → ¬ All (OnStream t) (sorted_entries b))
unfolding exit_action_target
exit_action_target_lem b t h =
    let es = sorted_entries b in
    let (sound, complete) = single_buffered_stream_lem es t h in
    elim (Bool-cases (single_buffered_stream es).1) [
      | inl mixed ↦ rw mixed (λ k. absurd (cc), λ _. complete mixed)
      | inr one ↦ rw one (elim (Bool-cases (stream_eq (single_buffered_stream es).0 unset)) [
        | inl empty ↦
            let on : All (OnStream unset) es =
              subst (λ (u : Stream). All (OnStream u) es) (stream_eq_sound _ _ empty) (sound one) in
            rw empty (λ k. unset-All es t h on, λ k. absurd (cc))
        | inr found ↦
            rw found (
              λ k. subst (λ (u : Stream). All (OnStream u) es) (cc k) (sound one),
              λ k. absurd (cc),
            )
      ])
    ]

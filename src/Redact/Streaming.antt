-- ===== src/Redact/Streaming.antt =====
-- The redaction of a stream is the redaction of the whole.
use cmdshape.Base.{
  ℕ, zero, suc, ◌+◌, ◌-◌, ◌<◌, Bool, true, false, List, [], ◌∷◌, ◌++◌, none, some, ◌≡◌, refl, sym,
  ap, ◌∙◌, inl, inr, Text, length, length-drop, take, drop, concat, concat-append, replace_all,
  Bool-cases, Option-cases, arith, append-nil, append_assoc,
}
use cmdshape.Redact.{
  stars, redact_confidential, index_of, as_write, drain_loop, drain, write_replacer, write_parts,
  stage, redact_stream,
}
use cmdshape.Redact.Scan.{index_of-le, replace_all-some, replace_all-none, replace_all-held}

concat-as_write : (p : Text) (writes : List Text) → concat (as_write p writes) ≡ p ++ concat writes
concat-as_write [] writes = refl
concat-as_write (c ∷ p) writes = refl

take_all : (p : Text) (n : ℕ) → n ≡ length p → (take n p ≡ p) × (drop n p ≡ [])
take_all [] zero e = (refl, refl)
take_all [] (suc n) e = absurd (omega (arith, e))
take_all (c ∷ p) zero e = absurd (omega (arith, e))
take_all (c ∷ p) (suc n) e =
    let (same, none_left) = take_all p n (omega (arith, e)) in
    (ap (λ (t : Text). c ∷ t) same, none_left)

-- What the writes and the pending bytes make of the bytes to come is what replacing in all makes.
abbrev pub IsFaithful : Bool → Text → Text → Text → List Text × Text → Type 0
IsFaithful final old pending rest r =
    (concat r.0 ++ replace_all (r.1 ++ rest) old stars ≡ replace_all (pending ++ rest) old stars)
    × (final ≡ true → r.1 ≡ [])

found-IsFaithful :
    (final : Bool) (d : ℕ) (old' pending rest : Text) (i : ℕ) (r : List Text × Text)
    → index_of pending (d ∷ old') ≡ some i
    → IsFaithful final (d ∷ old') (drop (i + length (d ∷ old')) pending) rest r
    → IsFaithful final (d ∷ old') pending rest (as_write (take i pending) (stars ∷ r.0), r.1)
found-IsFaithful final d old' pending rest i r e (whole, cleared) =
    let after = replace_all (r.1 ++ rest) (d ∷ old') stars in
    (
      ap (λ (t : Text). t ++ after) (concat-as_write (take i pending) (stars ∷ r.0))
          ∙ append_assoc (take i pending) (stars ++ concat r.0) after
          ∙ ap (λ (t : Text). take i pending ++ t)
              (append_assoc stars (concat r.0) after ∙ ap (λ (t : Text). stars ++ t) whole)
          ∙ sym (replace_all-some d old' pending rest stars i e),
      cleared,
    )

held-IsFaithful :
    (final : Bool) (d : ℕ) (old' pending rest : Text) (n : ℕ)
    → index_of pending (d ∷ old') ≡ none
    → n ≡ length pending - length old'
    → final ≡ false
    → IsFaithful final (d ∷ old') pending rest (as_write (take n pending) [], drop n pending)
held-IsFaithful final d old' pending rest n e size off = (
  ap (λ (t : Text). t ++ replace_all (drop n pending ++ rest) (d ∷ old') stars)
        (concat-as_write (take n pending) [] ∙ append-nil (take n pending))
      ∙ sym (replace_all-held d old' pending rest stars n e size),
  λ on. absurd (cc),
)

ended-IsFaithful :
    (final : Bool) (d : ℕ) (old' pending rest : Text) (n : ℕ)
    → index_of pending (d ∷ old') ≡ none
    → n ≡ length pending
    → rest ≡ []
    → IsFaithful final (d ∷ old') pending rest (as_write (take n pending) [], drop n pending)
ended-IsFaithful final d old' pending rest n e size empty =
    let (all, none_left) = take_all pending n size in
    let wrote = concat-as_write pending [] ∙ append-nil pending in
    rw (all, none_left, empty)
      (
        ap (λ (t : Text). t ++ []) wrote
            ∙ append-nil pending
            ∙ sym (replace_all-none d old' pending stars e)
            ∙ ap (λ (t : Text). replace_all t (d ∷ old') stars) (sym (append-nil pending)),
        λ on. refl,
      )

drain_loop-IsFaithful :
    (fuel : ℕ) (final : Bool) (d : ℕ) (old' pending rest : Text)
    → length pending < fuel
    → (final ≡ true → rest ≡ [])
    → IsFaithful final (d ∷ old') pending rest (drain_loop fuel final (d ∷ old') pending)
unfolding drain_loop
drain_loop-IsFaithful zero final d old' pending rest h last = absurd (omega (arith, h))
drain_loop-IsFaithful (suc fuel) final d old' pending rest h last =
    elim (Option-cases (index_of pending (d ∷ old'))) [
      | inr (i, e) ↦
          let left = drop (i + length (d ∷ old')) pending in
          let shorter = length-drop (i + length (d ∷ old')) pending in
          let room = index_of-le pending (d ∷ old') i e in
          rw (e, drain_loop, IsFaithful)
            (found-IsFaithful final d old' pending rest i (drain_loop fuel final (d ∷ old') left) e
              (drain_loop-IsFaithful fuel final d old' left rest (omega (arith, h, shorter, room))
                last))
      | inl e ↦ elim (Bool-cases final) [
        | inl ends ↦
            rw (e, drain_loop, IsFaithful)
              (ended-IsFaithful final d old' pending rest _ e (rw ends (omega arith)) (last ends))
        | inr goes_on ↦
            rw (e, drain_loop, IsFaithful)
              (held-IsFaithful final d old' pending rest _ e (rw goes_on (omega arith)) goes_on)
      ]
    ]

-- The parts of a stage, with what is still pending.
write_parts-whole :
    (d : ℕ) (old' : Text) (parts : List Text) (pending : Text)
    → let r = write_parts (record { old = d ∷ old'; pending = pending }) parts in
      (concat r.0 ++ replace_all r.1.pending (d ∷ old') stars
        ≡ replace_all (pending ++ concat parts) (d ∷ old') stars)
      × (r.1.old ≡ d ∷ old')
unfolding write_parts write_replacer drain
write_parts-whole d old' [] pending =
    (ap (λ (t : Text). replace_all t (d ∷ old') stars) (sym (append-nil pending)), refl)
write_parts-whole d old' (part ∷ parts) pending =
    let now = drain_loop (suc (length (pending ++ part))) false (d ∷ old') (pending ++ part) in
    let (whole, _) =
      drain_loop-IsFaithful (suc (length (pending ++ part))) false d old' (pending ++ part)
        (concat parts) (omega arith) (λ on. absurd (cc)) in
    let later = write_parts (record { old = d ∷ old'; pending = now.1 }) parts in
    let (joined, same) = write_parts-whole d old' parts now.1 in
    let after = replace_all later.1.pending (d ∷ old') stars in
    (
      ap (λ (t : Text). t ++ after) (concat-append now.0 later.0)
          ∙ append_assoc (concat now.0) (concat later.0) after
          ∙ ap (λ (t : Text). concat now.0 ++ t) joined
          ∙ whole
          ∙ ap (λ (t : Text). replace_all t (d ∷ old') stars)
              (append_assoc pending part (concat parts)),
      same,
    )

-- One stage replaces in the whole of its parts.
stage-whole :
    (d : ℕ) (old' : Text) (parts : List Text)
    → concat (stage (d ∷ old') parts) ≡ replace_all (concat parts) (d ∷ old') stars
unfolding stage drain
stage-whole d old' parts =
    let written = write_parts (record { old = d ∷ old'; pending = [] }) parts in
    let (whole, same) = write_parts-whole d old' parts [] in
    let left = written.1.pending in
    let last = drain_loop (suc (length left)) true (d ∷ old') left in
    let (flushed, cleared) =
      drain_loop-IsFaithful (suc (length left)) true d old' left [] (omega arith) (λ on. refl) in
    let end : concat last.0 ≡ replace_all left (d ∷ old') stars =
      sym (append-nil (concat last.0))
      ∙ ap (λ (t : Text). concat last.0 ++ replace_all (t ++ []) (d ∷ old') stars)
          (sym (cleared refl))
      ∙ flushed
      ∙ ap (λ (t : Text). replace_all t (d ∷ old') stars) (append-nil left) in
    rw same (concat-append written.0 last.0 ∙ ap (λ (t : Text). concat written.0 ++ t) end ∙ whole)

-- However the output comes in parts, what the stages of the writer make of it, flushed at the end, is
-- what redacting the whole output at once gives: no token slips through where two parts meet, and
-- nothing else is changed.
pub redact_stream_lem :
    (tokens parts : List Text)
    → concat (redact_stream tokens parts) ≡ redact_confidential (concat parts) tokens
unfolding redact_stream redact_confidential
redact_stream_lem [] parts = refl
redact_stream_lem ([] ∷ tokens) parts = redact_stream_lem tokens parts
redact_stream_lem ((d ∷ old') ∷ tokens) parts =
    redact_stream_lem tokens (stage (d ∷ old') parts)
    ∙ ap (λ (t : Text). redact_confidential t tokens) (stage-whole d old' parts)

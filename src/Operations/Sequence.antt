-- ===== src/Operations/Sequence.antt =====
-- internal/filters/operations/operations.go: `containsSequence`, and what it decides.
use cmdshape.Base.{
  take-append_drop, take-length, ℕ, zero, suc, ◌+◌, ◌-◌, ◌<◌, Bool, true, false, ◌&&◌, ◌||◌, List,
  [], ◌∷◌, ◌++◌, Text, length, take, drop, text_eq, text_eq_iff, ltb, if◌then◌else◌, ◌≡◌, refl, ◌↔◌,
  arith, ap, sym, ◌∙◌, Bool-cases, inl, inr, length-append,
}

-- `slices.Equal`
abbrev pub texts_eq : List Text → List Text → Bool
texts_eq [] [] = true
texts_eq [] (y ∷ ys) = false
texts_eq (x ∷ xs) [] = false
texts_eq (x ∷ xs) (y ∷ ys) = text_eq x y && texts_eq xs ys

-- The loop over `rounds` start positions, from the front of `args` on.
unfoldable pub sequence_loop : ℕ → List Text → List Text → Bool
sequence_loop zero args sequence = false
sequence_loop (suc rounds) args sequence =
    texts_eq (take (length sequence) args) sequence || sequence_loop rounds (drop 1 args) sequence

unfoldable pub contains_sequence : List Text → List Text → Bool
contains_sequence args [] = true
contains_sequence args (t ∷ ts) =
    if ltb (length args) (length (t ∷ ts))
    then false
    else sequence_loop (length args - length (t ∷ ts) + 1) args (t ∷ ts)

texts_eq_iff : (xs ys : List Text) → (texts_eq xs ys ≡ true) ↔ (xs ≡ ys)
texts_eq_iff [] [] = ground arith
texts_eq_iff [] (y ∷ ys) = ground arith
texts_eq_iff (x ∷ xs) [] = ground arith
texts_eq_iff (x ∷ xs) (y ∷ ys) = ground (arith, text_eq_iff x y, texts_eq_iff xs ys)

-- `sequence` stands in `args`, one argument behind the other.
abbrev pub Occurs : List Text → List Text → Type 0
Occurs sequence args =
    (before : List Text) × (after : List Text) × (args ≡ before ++ (sequence ++ after))

sequence_loop_sound :
    (rounds : ℕ) (args sequence : List Text)
    → sequence_loop rounds args sequence ≡ true
    → Occurs sequence args
unfolding sequence_loop
sequence_loop_sound zero args sequence h = absurd (cc)
sequence_loop_sound (suc rounds) args sequence h =
    elim (Bool-cases (texts_eq (take (length sequence) args) sequence)) [
      | inl here ↦
          let front = (texts_eq_iff _ _).0 here in
          (
            [],
            drop (length sequence) args,
            sym (take-append_drop (length sequence) args)
                ∙ ap (λ (t : List Text). t ++ drop (length sequence) args) front,
          )
      | inr on ↦ further args (sequence_loop_sound rounds (drop 1 args) sequence (rw on at h))
    ]
  where
    further : (args : List Text) → Occurs sequence (drop 1 args) → Occurs sequence args
    further [] o = o
    further (a ∷ args) (before, after, e) = (a ∷ before, after, ap (λ (t : List Text). a ∷ t) e)

sequence_loop_complete :
    (rounds : ℕ) (before after sequence : List Text)
    → length before < rounds
    → sequence_loop rounds (before ++ (sequence ++ after)) sequence ≡ true
unfolding sequence_loop
sequence_loop_complete zero before after sequence h = absurd (omega arith)
sequence_loop_complete (suc rounds) [] after sequence h =
    rw (take-length sequence after) (rw ((texts_eq_iff sequence sequence).1 refl))
sequence_loop_complete (suc rounds) (b ∷ before) after sequence h =
    ground (arith, sequence_loop_complete rounds before after sequence)

-- `containsSequence` answers true exactly if the sequence stands somewhere in the arguments, one
-- argument directly behind the other.
pub contains_sequence_iff :
    (args sequence : List Text) → (contains_sequence args sequence ≡ true) ↔ Occurs sequence args
unfolding contains_sequence
contains_sequence_iff args [] = (λ _. ([], args, refl), λ _. refl)
contains_sequence_iff args (t ∷ ts) =
    let rounds = length args - length (t ∷ ts) + 1 in
    (
      λ h. sequence_loop_sound rounds args (t ∷ ts) (ground arith),
      λ (before, after, e).
          let size = ap length e ∙ length-append before ((t ∷ ts) ++ after) in
          let inner = length-append (t ∷ ts) after in
          let found = sequence_loop_complete rounds before after (t ∷ ts) (omega arith) in
          let here : sequence_loop rounds args (t ∷ ts) ≡ true = rw (← e) at found in ground arith,
    )

-- ===== src/Yaml/Cases/Prepared.antt =====
-- The state of a filter at the beginning of an invocation.
use cmdshape.Base.{
  drop, ℕ, zero, suc, ◌+◌, false, List, [], ◌∷◌, Option, none, some, ◌≡◌, inl, inr, Text, text_eq,
  text_eq_refl, Bool-cases, arith,
}
use cmdshape.Operations.View.{parse_arguments}
use cmdshape.Yaml.Arguments.Holds.{Holds, matches_when_arguments-Holds}
use cmdshape.Yaml.Model.{Case}
use cmdshape.Yaml.Arguments.{filter_args, matches_when_arguments}
use cmdshape.Yaml.Cases.{YamlFilter, case_from, case_for_args, invocation_key, prepare_invocation}

-- Preparing an invocation that is prepared changes nothing, so a filter may be prepared at every
-- line of its output.
pub prepare_invocation-prepare_invocation :
    (args : List Text) (f : YamlFilter)
    → prepare_invocation args (prepare_invocation args f) ≡ prepare_invocation args f
unfolding prepare_invocation
prepare_invocation-prepare_invocation args f =
    elim (Bool-cases (text_eq f.active_args (invocation_key args))) [
      | inl same ↦ rw (same, same)
      | inr other ↦ rw other (rw (text_eq_refl (invocation_key args)))
    ]

-- The conditions of the case hold of the arguments.
abbrev pub IsFor : List Text → List Text → Case → Type 0
IsFor flags args c = Holds c.when args (parse_arguments args flags)

not-IsFor :
    (flags args : List Text) (c : Case)
    → matches_when_arguments c.when flags args ≡ false
    → ¬ IsFor flags args c
not-IsFor flags args c e holds =
    let bad = (matches_when_arguments-Holds c.when flags args).1 holds in absurd (cc)

-- None of the cases is for the arguments.
abbrev pub NoneMatches : List Text → List Text → List Case → Type 0
NoneMatches flags args [] = Unit
NoneMatches flags args (c ∷ cs) = (¬ IsFor flags args c) × NoneMatches flags args cs

-- The case at an index is for the arguments, and none before it.
abbrev pub IsFirstMatch : List Text → List Text → List Case → ℕ → Type 0
IsFirstMatch flags args [] i = ⊥
IsFirstMatch flags args (c ∷ cs) zero = IsFor flags args c
IsFirstMatch flags args (c ∷ cs) (suc i) = (¬ IsFor flags args c) × IsFirstMatch flags args cs i

abbrev pub IsChoice : List Text → List Text → List Case → ℕ → Option ℕ → Type 0
IsChoice flags args cs i none = NoneMatches flags args cs
IsChoice flags args cs i (some n) = (j : ℕ) × (n ≡ i + j) × IsFirstMatch flags args cs j

case_from-IsChoice :
    (i : ℕ) (cs : List Case) (flags args : List Text)
    → IsChoice flags args cs i (case_from i cs flags args)
unfolding case_from
case_from-IsChoice i [] flags args = tt
case_from-IsChoice i (c ∷ cs) flags args =
    elim (Bool-cases (matches_when_arguments c.when flags args)) [
      | inl here ↦
          rw (here, IsChoice)
            (0, omega arith, (matches_when_arguments-Holds c.when flags args).0 here)
      | inr not_here ↦
          rw (not_here, IsChoice)
            (behind not_here (case_from (suc i) cs flags args)
              (case_from-IsChoice (suc i) cs flags args))
    ]
  where
    behind :
        matches_when_arguments c.when flags args ≡ false
        → (found : Option ℕ) → IsChoice flags args cs (suc i) found
        → IsChoice flags args (c ∷ cs) i found
    behind e none h = (not-IsFor flags args c e, h)
    behind e (some n) (j, at, first) = (suc j, omega (arith, at), (not-IsFor flags args c e, first))

-- The case of an invocation is the first whose conditions, each of them, hold of the arguments behind
-- the first one, as the argument view reads them; where none is chosen, the conditions of no case
-- hold.
pub case_for_args-IsChoice :
    (f : YamlFilter) (args : List Text)
    → IsChoice f.flags_consuming_next_arg (drop 1 args) f.cases 0 (case_for_args f args)
unfolding case_for_args filter_args
case_for_args-IsChoice f [] = case_from-IsChoice 0 f.cases f.flags_consuming_next_arg []
case_for_args-IsChoice f (a ∷ args) = case_from-IsChoice 0 f.cases f.flags_consuming_next_arg args

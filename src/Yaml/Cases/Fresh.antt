-- ===== src/Yaml/Cases/Fresh.antt =====
-- A new invocation begins with the state of a filter cleared.
use mathlib.Core.Option
use cmdshape.Base.{
  Bool, true, false, ◌||◌, List, [], ◌∷◌, Option, none, some, ◌≡◌, refl, subst, ◌∙◌, ◌⊎◌, inl, inr,
  Text, text_eq, text_eq_iff, text_eq_refl, map, All, if◌then◌else◌, Bool-cases, arith,
}
use cmdshape.Yaml.Model.{Variables, Group, Scope, Case}
use cmdshape.Yaml.Template.{lookup, assign, copy}
use cmdshape.Yaml.Groups.Counted.{stored_lines}
use cmdshape.Yaml.Cases.{
  YamlFilter, reset_group, reset_scope, reset_case, invocation_key, prepare_invocation,
}

abbrev pub has_name : Variables → Text → Bool
has_name [] name = false
has_name ((n, v) ∷ vars) name = text_eq n name || has_name vars name

-- A Go map has an entry of a name once.
abbrev pub IsMap : Variables → Type 0
IsMap [] = Unit
IsMap ((n, v) ∷ vars) = (has_name vars n ≡ false) × IsMap vars

lookup-assign :
    (vars : Variables) (name value other : Text)
    → lookup (assign vars name value) other
      ≡ (if text_eq name other then value else lookup vars other)
unfolding lookup assign
lookup-assign [] name value other = ground arith
lookup-assign ((n, v) ∷ vars) name value other = ground (
  arith,
  lookup-assign vars name value other,
  text_eq_iff n name,
  text_eq_iff n other,
  text_eq_iff name other,
)

lookup-copy :
    (src dst : Variables) (name : Text)
    → IsMap src
    → lookup (copy dst src) name ≡ (if has_name src name then lookup src name else lookup dst name)
unfolding copy lookup
lookup-copy [] dst name m = refl
lookup-copy ((n, v) ∷ src) dst name m =
    let rest = lookup-copy src (assign dst n v) name m.1 in
    let first = lookup-assign dst n v name in
    elim (Bool-cases (text_eq n name)) [
      | inl same ↦
          let behind =
            subst (λ (t : Text). has_name src t ≡ false) ((text_eq_iff n name).0 same) m.0 in
          let here = rw same at first in let whole = rw behind at rest in rw same (whole ∙ here)
      | inr other ↦
          let unchanged = rw other at first in let whole = rw unchanged at rest in rw other whole
    ]

-- Every variable that has an initial value has it.
abbrev pub IsInitial : Variables → Variables → Type 0
IsInitial vars initials = All (λ ((n, v) : Text × Text). lookup vars n ≡ v) initials

lookups-IsInitial :
    (vars src : Variables)
    → IsMap src
    → ((name : Text) → has_name src name ≡ true → lookup vars name ≡ lookup src name)
    → IsInitial vars src
unfolding lookup
lookups-IsInitial vars [] m h = tt
lookups-IsInitial vars ((n, v) ∷ src) m h = (
  h n (ground (arith, text_eq_refl n)) ∙ rw (text_eq_refl n),
  lookups-IsInitial vars src m.1 (λ name named. behind name named (Bool-cases (text_eq n name))),
)
  where
    behind :
        (name : Text)
        → has_name src name ≡ true
        → (text_eq n name ≡ true) ⊎ (text_eq n name ≡ false)
        → lookup vars name ≡ lookup src name
    behind name named (inl same) =
        let twice =
          subst (λ (t : Text). has_name src t ≡ false) ((text_eq_iff n name).0 same) m.0 in
        absurd (cc)
    behind name named (inr other) = h name (rw other named) ∙ rw other

-- Nothing has been hidden or stored, and no section is open.
abbrev pub IsCleared : Option Scope → Type 0
IsCleared none = Unit
IsCleared (some c) = (c.hidden ≡ 0) × (c.active_boundary ≡ none) × (stored_lines c.groups ≡ 0)

abbrev pub IsFresh : Case → Type 0
IsFresh c =
    IsInitial c.variables c.initials × IsCleared c.shared × IsCleared c.out × IsCleared c.err

abbrev pub HasMaps : Case → Type 0
HasMaps c = IsMap c.initials

stored_lines-reset : (gs : List Group) → stored_lines (map reset_group gs) ≡ 0
stored_lines-reset [] = refl
stored_lines-reset (g ∷ gs) = omega (arith, stored_lines-reset gs)

reset_scope-IsCleared : (c : Option Scope) → IsCleared (Option.map reset_scope c)
unfolding reset_scope
reset_scope-IsCleared none = tt
reset_scope-IsCleared (some c) = (refl, refl, stored_lines-reset c.groups)

reset_case-IsFresh : (c : Case) → HasMaps c → IsFresh (reset_case c)
unfolding reset_case
reset_case-IsFresh c m = (
  lookups-IsInitial (copy c.variables c.initials) c.initials m
      (λ name h. lookup-copy c.initials c.variables name m ∙ rw h),
  reset_scope-IsCleared c.shared,
  reset_scope-IsCleared c.out,
  reset_scope-IsCleared c.err,
)

reset_cases-IsFresh : (cs : List Case) → All HasMaps cs → All IsFresh (map reset_case cs)
reset_cases-IsFresh [] m = tt
reset_cases-IsFresh (c ∷ cs) m = (reset_case-IsFresh c m.0, reset_cases-IsFresh cs m.1)

-- When the arguments are not those of the invocation before, every case of the filter begins anew:
-- its variables that have an initial value have it, and none of its scopes has hidden a line, stored
-- one in a group or left a section open.
pub prepare_invocation-IsFresh :
    (args : List Text) (f : YamlFilter)
    → All HasMaps f.cases
    → text_eq f.active_args (invocation_key args) ≡ false
    → All IsFresh (prepare_invocation args f).cases
unfolding prepare_invocation
prepare_invocation-IsFresh args f m other = rw other (reset_cases-IsFresh f.cases m)

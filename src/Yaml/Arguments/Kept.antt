-- ===== src/Yaml/Arguments/Kept.antt =====
-- The arguments of a command are kept: a case only adds behind them.
use cmdshape.Base.{
  Bool, true, false, List, [], ◌∷◌, ◌++◌, Option, none, some, ◌≡◌, refl, sym, ap, subst, ◌∙◌, Text,
  any, if◌then◌else◌, append-nil, append_assoc, ◌==◌,
}
use cmdshape.Operations.{dash, cluster_has, has_explicit_positionals}
use cmdshape.Yaml.Model.{When, CommandChanges}
use cmdshape.Yaml.Arguments.{
  filter_args, leading_command, argument_present, add_short_flag_if_missing, add_short_flags_loop,
  append_missing_loop, explicit_args, apply_changes, apply_command_mutations,
}

-- `longer` is the arguments with others behind.
abbrev pub IsExtension : List Text → List Text → Type 0
IsExtension args longer = (added : List Text) × (longer ≡ args ++ added)

same_args : (args : List Text) → IsExtension args args
same_args args = ([], sym (append-nil args))

one_more : (args : List Text) (arg : Text) → IsExtension args (args ++ arg ∷ [])
one_more args arg = (arg ∷ [], refl)

if_more :
    (b : Bool) (args x y : List Text)
    → IsExtension args x
    → IsExtension args y
    → IsExtension args (if b then x else y)
if_more true args x y hx hy = hx
if_more false args x y hx hy = hy

IsExtension-trans : (x y z : List Text) → IsExtension x y → IsExtension y z → IsExtension x z
IsExtension-trans x y z (a, e) (b, f) =
    (a ++ b, f ∙ ap (λ (t : List Text). t ++ b) e ∙ append_assoc x a b)

add_short_flag_if_missing-IsExtension :
    (args : List Text) (flag : Text) → IsExtension args (add_short_flag_if_missing args flag)
unfolding add_short_flag_if_missing
add_short_flag_if_missing-IsExtension args [] = same_args args
add_short_flag_if_missing-IsExtension args (c ∷ []) = same_args args
add_short_flag_if_missing-IsExtension args (c ∷ b ∷ []) =
    if_more (c == dash) args _ args
      (if_more (any (cluster_has b) args) args args _ (same_args args) (one_more args (c ∷ b ∷ [])))
      (same_args args)
add_short_flag_if_missing-IsExtension args (c ∷ b ∷ d ∷ s) = same_args args

add_short_flags_loop-IsExtension :
    (flags args : List Text) → IsExtension args (add_short_flags_loop args flags)
unfolding add_short_flags_loop
add_short_flags_loop-IsExtension [] args = same_args args
add_short_flags_loop-IsExtension (flag ∷ flags) args =
    IsExtension-trans args (add_short_flag_if_missing args flag) _
      (add_short_flag_if_missing-IsExtension args flag) (add_short_flags_loop-IsExtension flags _)

append_missing_loop-IsExtension :
    (fs wants args : List Text) → IsExtension args (append_missing_loop fs args wants)
unfolding append_missing_loop
append_missing_loop-IsExtension fs [] args = same_args args
append_missing_loop-IsExtension fs (arg ∷ wants) args =
    IsExtension-trans args (if argument_present args arg fs then args else args ++ arg ∷ []) _
      (if_more (argument_present args arg fs) args args _ (same_args args) (one_more args arg))
      (append_missing_loop-IsExtension fs wants _)

-- The last step of the changes, on the arguments as they are by then.
abbrev pub ends_in : List Text → When → List Text → CommandChanges → Option (List Text)
ends_in mutated w fs command = elim (explicit_args w mutated) [
  | none ↦ none
  | some filtered ↦ some (
      if has_explicit_positionals filtered fs
      then mutated
      else mutated ++ command.append_if_no_positionals)
]

ends_in-IsExtension :
    (tool : Text) (args added : List Text) (w : When) (fs : List Text) (command : CommandChanges)
    → (more : List Text) × (ends_in ((tool ∷ args) ++ added) w fs command
        ≡ some ((tool ∷ args) ++ more))
unfolding explicit_args
ends_in-IsExtension tool args added w fs command =
    let rest = args ++ added in
    let filtered = if leading_command w then filter_args rest else rest in
    let (more, e) =
      if_more (has_explicit_positionals filtered fs) (tool ∷ args) ((tool ∷ args) ++ added)
        (((tool ∷ args) ++ added) ++ command.append_if_no_positionals) (added, refl)
        (
          added ++ command.append_if_no_positionals,
          append_assoc (tool ∷ args) added command.append_if_no_positionals,
        ) in
    (more, ap some e)

-- On a command line that has a tool, the changes of a case give a command line: that of the
-- user, untouched and in front, with the arguments that the case adds behind it.
pub apply_command_mutations-IsExtension :
    (tool : Text) (args : List Text) (w : When) (fs : List Text) (command : Option CommandChanges)
    → (added : List Text) × (apply_command_mutations (tool ∷ args) w fs command
        ≡ some ((tool ∷ args) ++ added))
unfolding apply_command_mutations apply_changes
apply_command_mutations-IsExtension tool args w fs none =
    ([], ap some (sym (append-nil (tool ∷ args))))
apply_command_mutations-IsExtension tool args w fs (some command) =
    let (added, e) =
      IsExtension-trans (tool ∷ args) (add_short_flags_loop (tool ∷ args) command.add_short_flags) _
        (add_short_flags_loop-IsExtension command.add_short_flags (tool ∷ args))
        (append_missing_loop-IsExtension fs command.append_if_missing _) in
    subst
      (λ (mutated : List Text).
        (more : List Text) × (ends_in mutated w fs command ≡ some ((tool ∷ args) ++ more)))
      (sym e) (ends_in-IsExtension tool args added w fs command)

-- ===== src/Cli/Scope.antt =====
-- Where the flags that belong to a command's execution may stand.
use cmdshape.Base.{
  subst, text_eq_iff, Bool, true, false, List, [], ◌||◌, ◌∷◌, ◌++◌, Option, none, some, ◌≡◌, refl,
  sym, ap, ◌⊎◌, inl, inr, Text, codes, text_eq, has_prefix, if◌then◌else◌,
}
use cmdshape.Cli.{
  Options, Error, Result, ok, fail, no_options, validate_execution_flag_scope,
  finalize_parsed_options, confidential_flag, parse_plain_flag, parse_rest, parse_loop, parse,
}
use cmdshape.Cli.Managed.{is_managed_command}
use cmdshape.Cli.Redactions.{parse_confidential_redactions}

-- The flags are those of an execution only where the command is not one of the program's own.
abbrev pub IsInScope : Options → List Text → Type 0
IsInScope o [] = Unit
IsInScope o (command ∷ args) =
    (is_managed_command command ≡ true) → (o.raw ≡ false) × (o.confidential_redactions ≡ [])

abbrev pub is_plain_flag : Text → Bool
is_plain_flag arg =
    (text_eq arg (codes "--help") || text_eq arg (codes "-h"))
    || (text_eq arg (codes "--version") || text_eq arg (codes "--raw"))

-- In front of a command stand flags of the program alone, the one for redactions with its value; and
-- either `--` ends them or the command begins with no dash.
abbrev pub IsDivided : List Text → List Text → Type 0
IsDivided [] [] = Unit
IsDivided [] (c ∷ command) = has_prefix c (codes "-") ≡ false
IsDivided (a ∷ []) command = (a ≡ codes "--") ⊎ ((is_plain_flag a ≡ true) × IsDivided [] command)
IsDivided (a ∷ b ∷ front) command =
    ((is_plain_flag a ≡ true) × IsDivided (b ∷ front) command)
    ⊎ ((a ≡ confidential_flag) × IsDivided front command)

-- What the options of a parse say of the arguments: they are flags and the command's arguments.
abbrev pub IsParsed : List Text → Result Options → Type 0
IsParsed args (fail e) = Unit
IsParsed args (ok o) =
    ((o.show_help ≡ true) ⊎ IsInScope o o.command_args)
    × ((front : List Text) × (args ≡ front ++ o.command_args) × IsDivided front o.command_args)

abbrev pub IsScoped : List Text → Options → Option Error → Type 0
IsScoped args o (some e) = Unit
IsScoped args o none = IsInScope o args

validate_execution_flag_scope-IsScoped :
    (args : List Text) (o : Options) → IsScoped args o (validate_execution_flag_scope args o)
unfolding validate_execution_flag_scope
validate_execution_flag_scope-IsScoped [] o = tt
validate_execution_flag_scope-IsScoped (command ∷ args) o =
    by_managed (is_managed_command command) refl o.raw refl o.confidential_redactions refl
  where
    by_managed :
        (managed : Bool)
        → is_managed_command command ≡ managed
        → (raw : Bool) → o.raw ≡ raw
        → (redactions : List Text) → o.confidential_redactions ≡ redactions
        → IsScoped (command ∷ args) o (
            if (if managed then false else true)
            then none
            else if raw
            then some Error.raw_out_of_scope
            else elim redactions [ [] ↦ none | r ∷ rs ↦ some Error.confidential_out_of_scope ])
    by_managed true m true r redactions c = tt
    by_managed true m false r [] c = λ h. (r, c)
    by_managed true m false r (x ∷ xs) c = tt
    by_managed false m raw r redactions c = λ h. absurd (cc)

finalize_parsed_options-IsParsed :
    (args front : List Text) (o : Options)
    → args ≡ front ++ o.command_args
    → IsDivided front o.command_args
    → IsParsed args (finalize_parsed_options o)
unfolding finalize_parsed_options
finalize_parsed_options-IsParsed args front o end divided =
    helped o.show_help refl (validate_execution_flag_scope o.command_args o)
      (validate_execution_flag_scope-IsScoped o.command_args o)
  where
    helped :
        (help : Bool)
        → o.show_help ≡ help
        → (error : Option Error) → IsScoped o.command_args o error
        → IsParsed args (if help then ok o else elim error [ none ↦ ok o | some e ↦ fail e ])
    helped true e error h = (inl e, (front, end, divided))
    helped false e none h = (inr h, (front, end, divided))
    helped false e (some er) h = tt

if_IsParsed :
    (b : Bool) (args : List Text) (x y : Result Options)
    → (b ≡ true → IsParsed args x)
    → (b ≡ false → IsParsed args y)
    → IsParsed args (if b then x else y)
if_IsParsed true args x y hx hy = hx refl
if_IsParsed false args x y hx hy = hy refl

IsDivided-plain :
    (a : Text) (front command : List Text)
    → is_plain_flag a ≡ true
    → IsDivided front command
    → IsDivided (a ∷ front) command
IsDivided-plain a [] command plain h = inr (plain, h)
IsDivided-plain a (b ∷ front) command plain h = inl (plain, h)

-- More flags in front.
IsParsed-plain :
    (arg : Text) (args : List Text) (r : Result Options)
    → is_plain_flag arg ≡ true
    → IsParsed args r
    → IsParsed (arg ∷ args) r
IsParsed-plain arg args (fail e) plain h = tt
IsParsed-plain arg args (ok o) plain (scope, (front, end, divided)) = (
  scope,
  (
    arg ∷ front,
    ap (λ (t : List Text). arg ∷ t) end,
    IsDivided-plain arg front o.command_args plain divided,
  ),
)

IsParsed-confidential :
    (arg next : Text) (args : List Text) (r : Result Options)
    → arg ≡ confidential_flag
    → IsParsed args r
    → IsParsed (arg ∷ next ∷ args) r
IsParsed-confidential arg next args (fail e) flag h = tt
IsParsed-confidential arg next args (ok o) flag (scope, (front, end, divided)) =
    (scope, (arg ∷ next ∷ front, ap (λ (t : List Text). arg ∷ next ∷ t) end, inr (flag, divided)))

parse_rest-IsParsed :
    (arg : Text) (args : List Text) (o : Options) → IsParsed (arg ∷ args) (parse_rest arg args o)
unfolding parse_rest
parse_rest-IsParsed arg args o =
    if_IsParsed (has_prefix arg (codes "-")) (arg ∷ args) _ _ (λ dash. tt)
      (λ plain.
        finalize_parsed_options-IsParsed (arg ∷ args) [] (record o { command_args = arg ∷ args })
          refl plain)

-- A flag does not set the command's arguments.
abbrev pub IsFlagOf : Text → Option Options → Type 0
IsFlagOf arg none = Unit
IsFlagOf arg (some o) = (o.command_args ≡ []) × (is_plain_flag arg ≡ true)

parse_plain_flag-IsFlagOf :
    (arg : Text) (o : Options) → o.command_args ≡ [] → IsFlagOf arg (parse_plain_flag arg o)
unfolding parse_plain_flag
parse_plain_flag-IsFlagOf arg o h =
    if_flag (text_eq arg (codes "--help") || text_eq arg (codes "-h")) _ _ (λ e. (h, rw e refl))
      (λ helpless.
        if_flag (text_eq arg (codes "--version")) _ _ (λ e. (h, rw (helpless, e) refl))
          (λ unversioned.
            if_flag (text_eq arg (codes "--raw")) _ _ (λ e. (h, rw (helpless, unversioned, e) refl))
              (λ other. tt)))
  where
    if_flag :
        (b : Bool) (x y : Option Options)
        → (b ≡ true → IsFlagOf arg x)
        → (b ≡ false → IsFlagOf arg y)
        → IsFlagOf arg (if b then x else y)
    if_flag true x y hx hy = hx refl
    if_flag false x y hx hy = hy refl

-- What the loop does with a flag that has been read, and what without one.
flag_step :
    (arg : Text) (args : List Text) (go_on : Options → Result Options) (rest : Result Options)
    → ((o : Options) → o.command_args ≡ [] → is_plain_flag arg ≡ true → IsParsed args (go_on o))
    → IsParsed args rest
    → (found : Option Options) → IsFlagOf arg found
    → IsParsed args (elim found [ some o ↦ go_on o | none ↦ rest ])
flag_step arg args go_on rest h other none flag = other
flag_step arg args go_on rest h other (some o) (no_args, plain) = h o no_args plain

nothing_left : (o : Options) → o.command_args ≡ [] → IsDivided [] o.command_args
nothing_left o h = subst (IsDivided []) (sym h) tt

-- The loop where it has not met the command's arguments yet.
parse_loop-IsParsed :
    (args : List Text) (o : Options) → o.command_args ≡ [] → IsParsed args (parse_loop args o)
unfolding parse_loop
parse_loop-IsParsed [] o h = finalize_parsed_options-IsParsed [] [] o (sym h) (nothing_left o h)
parse_loop-IsParsed (arg ∷ []) o h =
    if_IsParsed (text_eq arg (codes "--")) (arg ∷ []) _ _
      (λ end.
        finalize_parsed_options-IsParsed (arg ∷ []) (arg ∷ []) (record o { command_args = [] }) refl
          (inl ((text_eq_iff arg (codes "--")).0 end)))
      (λ on.
        flag_step arg (arg ∷ []) finalize_parsed_options _
          (λ o' h' plain.
            finalize_parsed_options-IsParsed (arg ∷ []) (arg ∷ []) o'
              (ap (λ (t : List Text). arg ∷ t) (sym h')) (inr (plain, nothing_left o' h')))
          (if_IsParsed (text_eq arg confidential_flag) (arg ∷ []) _ _ (λ e. tt)
            (λ e. parse_rest-IsParsed arg [] o))
          (parse_plain_flag arg o) (parse_plain_flag-IsFlagOf arg o h))
parse_loop-IsParsed (arg ∷ next ∷ args) o h =
    let whole : List Text = arg ∷ next ∷ args in
    let redacted = record o { confidential_redactions = parse_confidential_redactions next } in
    if_IsParsed (text_eq arg (codes "--")) whole _ _
      (λ end.
        finalize_parsed_options-IsParsed whole (arg ∷ []) (record o { command_args = next ∷ args })
          refl (inl ((text_eq_iff arg (codes "--")).0 end)))
      (λ on.
        flag_step arg whole (λ o'. parse_loop (next ∷ args) o') _
          (λ o' h' plain.
            IsParsed-plain arg (next ∷ args) _ plain (parse_loop-IsParsed (next ∷ args) o' h'))
          (if_IsParsed (text_eq arg confidential_flag) whole _ _
            (λ e.
              IsParsed-confidential arg next args _ ((text_eq_iff arg confidential_flag).0 e)
                (parse_loop-IsParsed args redacted h))
            (λ e. parse_rest-IsParsed arg (next ∷ args) o))
          (parse_plain_flag arg o) (parse_plain_flag-IsFlagOf arg o h))

-- The arguments of a parse that gives options are flags of the program and then, unchanged and to the
-- end, the command's arguments: in front of these stand plain flags and the flag for redactions, each
-- with its value, and either `--` ends them or the command begins with no dash. And where the options
-- do not ask for the help text and the command is one of the program's own, neither the raw output
-- nor redactions are asked for.
pub parse-IsParsed : (args : List Text) → IsParsed args (parse args)
unfolding parse
parse-IsParsed args = parse_loop-IsParsed args no_options refl

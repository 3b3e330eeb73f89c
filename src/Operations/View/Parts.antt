-- ===== src/Operations/View/Parts.antt =====
-- How the view divides the arguments at the separator.
use cmdshape.Base.{
  Bool, not, ◌&&◌, ltb, length, has_prefix, contains_text, cut, if◌then◌else◌, Bool, true, false,
  List, [], ◌∷◌, ◌++◌, Option, none, some, Text, text_eq, ◌≡◌, refl, ap, sym, ◌∙◌, arith,
  append-nil, append_assoc, Bool-cases, inl, inr,
}
use cmdshape.Operations.View.{
  cut_option, is_long_option_name, ArgumentView, separator, append_normalized, add_before,
  append_flag, append_flag_value, append_standalone_value, append_positional,
  append_before_separator, read_after, read_before, parse_arguments,
}

-- `--name=value`
abbrev pub is_attached : Text → Bool
is_attached arg = elim (cut b'=' arg) [
  | none ↦ false
  | some (name, value) ↦ ltb 2 (length name) && has_prefix name separator
]

-- The next argument belongs to this one.
abbrev pub takes_value : List Text → Text → Bool
takes_value flags arg = not (is_attached arg) && contains_text flags arg

-- The first separator that is no flag's value, with what follows it; nothing where there is none.
abbrev pub tail_of : List Text → List Text → List Text
tail_of flags [] = []
tail_of flags (arg ∷ []) = if text_eq arg separator then arg ∷ [] else []
tail_of flags (arg ∷ next ∷ args) =
    let skipping = tail_of flags args in
    let going_on = tail_of flags (next ∷ args) in
    if text_eq arg separator
    then arg ∷ next ∷ args
    else if takes_value flags arg
    then skipping
    else going_on

append_before_separator-takes_value :
    (flags : List Text) (arg value : Text) (v : ArgumentView)
    → (append_before_separator flags arg (some value) v).1 ≡ takes_value flags arg
unfolding append_before_separator cut_option is_long_option_name
append_before_separator-takes_value flags arg value v = ground arith

-- what one round before the separator has done
record Round (arg : Text) (next : Option Text) (v : ArgumentView) (r : ArgumentView × Bool)
    : Type 0 where
  whole : r.0.normalized ≡ r.0.normalized_pre
  raw : r.0.raw ≡ v.raw
  never : next ≡ none → r.1 ≡ false
  one : r.1 ≡ false → r.0.before ≡ v.before ++ arg ∷ []
  two : (value : Text) → next ≡ some value → r.1 ≡ true → r.0.before ≡ v.before ++ arg ∷ value ∷ []

append_before_separator-Round :
    (flags : List Text) (arg : Text) (next : Option Text) (v : ArgumentView)
    → v.normalized ≡ v.normalized_pre
    → Round arg next v (append_before_separator flags arg next (add_before arg v))
unfolding append_before_separator append_normalized append_flag append_flag_value
    append_standalone_value append_positional
append_before_separator-Round flags arg none v h = record {
  whole = ground arith;
  raw = ground arith;
  never = λ e. ground arith;
  one = ground arith;
  two = λ value e. cc;
}
append_before_separator-Round flags arg (some value) v h = record {
  whole = ground arith;
  raw = ground arith;
  never = λ e. ground arith;
  one = ground arith;
  two = λ w e t. ground (arith, append_assoc v.before (arg ∷ []) (value ∷ []));
}

-- The reading of `args` from `v` on ends in `r`, with the separator in front of `rest`.
record Divides (args rest : List Text) (v r : ArgumentView) : Type 0 where
  parts : v.before ++ args ≡ r.before ++ rest
  behind : r.normalized ≡ r.normalized_pre ++ rest
  raw : r.raw ≡ v.raw

read_after-normalized :
    (args : List Text) (v : ArgumentView)
    → ((read_after args v).normalized ≡ v.normalized ++ args)
      × ((read_after args v).normalized_pre ≡ v.normalized_pre)
      × ((read_after args v).before ≡ v.before)
      × ((read_after args v).raw ≡ v.raw)
unfolding read_after
read_after-normalized [] v = (sym (append-nil v.normalized), refl, refl, refl)
read_after-normalized (arg ∷ args) v =
    let (all, pre, before, raw) = read_after-normalized args (record v {
      normalized = v.normalized ++ arg ∷ [];
      positionals = v.positionals ++ arg ∷ [];
    }) in
    (all ∙ append_assoc v.normalized (arg ∷ []) args, pre, before, raw)

read_before-Divides :
    (flags args : List Text) (v : ArgumentView)
    → v.normalized ≡ v.normalized_pre
    → Divides args (tail_of flags args) v (read_before flags args v)
unfolding read_before
read_before-Divides flags [] v h = record {
  parts = refl;
  behind = h ∙ sym (append-nil v.normalized_pre);
  raw = refl;
}
read_before-Divides flags (arg ∷ []) v h = elim (Bool-cases (text_eq arg separator)) [
  | inl here ↦
      rw here
        (record { parts = refl; behind = ap (λ (t : List Text). t ++ arg ∷ []) h; raw = refl })
  | inr on ↦
      let round = append_before_separator-Round flags arg none v h in
      rw on (record {
        parts = sym (append-nil _ ∙ round.one (round.never refl));
        behind = round.whole ∙ sym (append-nil _);
        raw = round.raw;
      })
]
read_before-Divides flags (arg ∷ next ∷ args) v h =
    let read = append_before_separator flags arg (some next) (add_before arg v) in
    let round = append_before_separator-Round flags arg (some next) v h in
    let takes = append_before_separator-takes_value flags arg next (add_before arg v) in
    elim (Bool-cases (text_eq arg separator)) [
      | inl here ↦
          let (all, pre, before, raw) =
            read_after-normalized (next ∷ args)
              (record v { normalized = v.normalized ++ arg ∷ [] }) in
          rw here (record {
            parts = ap (λ (t : List Text). t ++ arg ∷ next ∷ args) (sym before);
            behind =
                all
                ∙ append_assoc v.normalized (arg ∷ []) (next ∷ args)
                ∙ ap (λ (t : List Text). t ++ arg ∷ next ∷ args) (h ∙ sym pre);
            raw = raw;
          })
      | inr on ↦ elim (Bool-cases read.1) [
        | inl taken ↦
            let d = read_before-Divides flags args read.0 round.whole in
            rw on (
              rw (sym takes ∙ taken) (
                rw taken (record {
                  parts =
                      sym (append_assoc v.before (arg ∷ next ∷ []) args)
                      ∙ ap (λ (t : List Text). t ++ args) (sym (round.two next refl taken))
                      ∙ d.parts;
                  behind = d.behind;
                  raw = d.raw ∙ round.raw;
                })))
        | inr going_on ↦
            let d = read_before-Divides flags (next ∷ args) read.0 round.whole in
            rw on (
              rw (sym takes ∙ going_on) (
                rw going_on (record {
                  parts =
                      sym (append_assoc v.before (arg ∷ []) (next ∷ args))
                      ∙ ap (λ (t : List Text). t ++ next ∷ args) (sym (round.one going_on))
                      ∙ d.parts;
                  behind = d.behind;
                  raw = d.raw ∙ round.raw;
                })))
      ]
    ]

-- The arguments that the view calls `before` are those in front of the first separator that is not
-- the value of a flag, all where there is none; a flag has a value where it is one of the value flags
-- and has none attached to it. The view of all arguments is the view of those in front with the
-- separator and what follows it unchanged behind them, and the argument list itself is kept.
pub parse_arguments-parts :
    (args flags : List Text)
    → (args ≡ (parse_arguments args flags).before ++ tail_of flags args)
      × ((parse_arguments args flags).normalized
          ≡ (parse_arguments args flags).normalized_pre ++ tail_of flags args)
      × ((parse_arguments args flags).raw ≡ args)
unfolding parse_arguments
parse_arguments-parts args flags =
    let d = read_before-Divides flags args _ refl in (d.parts, d.behind, d.raw)

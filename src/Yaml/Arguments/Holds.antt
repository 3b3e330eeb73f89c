-- ===== src/Yaml/Arguments/Holds.antt =====
-- The conditions of a case as a statement on the arguments.
use cmdshape.Base.{
  subst, Bool-cases, ◌≤◌, Bool, true, false, not, ◌&&◌, ◌||◌, List, [], ◌∷◌, none, some, Text, any,
  contains_text, text_eq, text_eq_iff, has_prefix, cut, is_empty, length, ltb, leb, if◌then◌else◌,
  ◌≡◌, ◌⊎◌, ◌↔◌, refl, sym, ap, inl, inr, arith, Option-cases,
}
use cmdshape.Operations.{is_nil, matches_first_is, matches_first_in}
use cmdshape.Operations.Sequence.{contains_sequence, contains_sequence_iff, Occurs}
use cmdshape.Operations.View.{
  ArgumentView, separator, cut_option, is_long_option_name, parse_arguments,
  matches_wanted_argument, view_matches_have_any, view_matches_lack_any,
  view_matches_positionals_lack_any, view_matches_no_positionals, normalize_matcher_sequence,
  view_matches_have_sequence,
}
use cmdshape.Yaml.Model.{When}
use cmdshape.Yaml.Arguments.{matches_when_arguments, leading_command}
use cmdshape.Yaml.Arguments.Logic.{
  and_iff, or_iff, not_iff, if_iff, OneOf, any_iff, IsAmong, contains_text_iff, is_nil_iff, First,
}
use cmdshape.Yaml.Arguments.Flags.{
  HasFlag, IsMissing, IsWanted, matches_have_short_flag_iff, matches_not_have_short_flag_iff,
  matches_have_all_short_flags_iff, matches_not_have_all_short_flags_iff,
  matches_wanted_argument_iff,
}

is_empty_iff : (t : Text) → (is_empty t ≡ true) ↔ (t ≡ [])
is_empty_iff [] = (λ e. refl, λ e. refl)
is_empty_iff (c ∷ t) = (λ e. absurd (cc), λ e. absurd (cc))

with_none : {P : Type 0} (a : Bool) → (a ≡ true) ↔ P → (a ≡ true) ↔ (P ⊎ ⊥)
with_none {P} a h = (λ e. inl (h.0 e), back)
  where
    back : P ⊎ ⊥ → a ≡ true
    back (inl p) = h.1 p
    back (inr never) = absurd never

matches_first_is_iff :
    (args : List Text) (first : Text)
    → (matches_first_is args first ≡ true) ↔ ((first ≡ []) ⊎ First (λ a. a ≡ first) args)
unfolding matches_first_is
matches_first_is_iff [] first = with_none (is_empty first) (is_empty_iff first)
matches_first_is_iff (a ∷ args) first =
    or_iff (is_empty first) (text_eq a first) (is_empty_iff first) (text_eq_iff a first)

matches_first_in_iff :
    (args options : List Text)
    → (matches_first_in args options ≡ true) ↔ ((options ≡ []) ⊎ First (IsAmong options) args)
unfolding matches_first_in
matches_first_in_iff [] options = with_none (is_nil options) (is_nil_iff options)
matches_first_in_iff (a ∷ args) options =
    or_iff (is_nil options) (contains_text options a) (is_nil_iff options)
      (contains_text_iff options a)

-- Nothing is asked for, or this.
or_nothing :
    {P : Type 0} (x : Text) (xs : List Text) (b : Bool)
    → (b ≡ true) ↔ P
    → (b ≡ true) ↔ (((x ∷ xs) ≡ []) ⊎ P)
or_nothing {P} x xs b h = (λ e. inr (h.0 e), back)
  where
    back : ((x ∷ xs) ≡ []) ⊎ P → b ≡ true
    back (inl bad) = absurd (cc)
    back (inr p) = h.1 p

view_matches_have_any_iff :
    (v : ArgumentView) (wants : List Text)
    → (view_matches_have_any v wants ≡ true) ↔ ((wants ≡ []) ⊎ OneOf (IsWanted v) wants)
unfolding view_matches_have_any
view_matches_have_any_iff v [] = (λ e. inl refl, λ h. refl)
view_matches_have_any_iff v (want ∷ wants) = or_nothing want wants _ (
    any_iff (IsWanted v) (matches_wanted_argument v) (want ∷ wants) (matches_wanted_argument_iff v))

view_matches_lack_any_iff :
    (v : ArgumentView) (wants : List Text)
    → (view_matches_lack_any v wants ≡ true) ↔ ((wants ≡ []) ⊎ (¬ OneOf (IsWanted v) wants))
unfolding view_matches_lack_any view_matches_have_any
view_matches_lack_any_iff v [] = (λ e. inl refl, λ h. refl)
view_matches_lack_any_iff v (want ∷ wants) = or_nothing want wants _ (
    not_iff (any (matches_wanted_argument v) (want ∷ wants)) (
      any_iff (IsWanted v) (matches_wanted_argument v) (want ∷ wants)
        (matches_wanted_argument_iff v)))

-- One of the positionals is among the texts.
abbrev pub HasPositional : ArgumentView → List Text → Type 0
HasPositional v texts = OneOf (IsAmong texts) v.positionals

view_matches_positionals_lack_any_iff :
    (v : ArgumentView) (texts : List Text)
    → (view_matches_positionals_lack_any v texts ≡ true)
      ↔ ((texts ≡ []) ⊎ (¬ HasPositional v texts))
unfolding view_matches_positionals_lack_any
view_matches_positionals_lack_any_iff v [] = (λ e. inl refl, λ h. refl)
view_matches_positionals_lack_any_iff v (d ∷ ds) = or_nothing d ds _ (
    not_iff (any (contains_text (d ∷ ds)) v.positionals) (
      any_iff (IsAmong (d ∷ ds)) (contains_text (d ∷ ds)) v.positionals
        (contains_text_iff (d ∷ ds))))

-- The tokens of a sequence, `--name=value` in two.
abbrev pub pieces : List Text → List Text
pieces [] = []
pieces (token ∷ tokens) =
    let rest = pieces tokens in
    elim (cut b'=' token) [
      | none ↦ token ∷ rest
      | some (name, value) ↦
          if ltb 2 (length name) && has_prefix name separator
          then name ∷ value ∷ rest
          else token ∷ rest
    ]

normalize-pieces : (tokens : List Text) → normalize_matcher_sequence tokens ≡ pieces tokens
unfolding normalize_matcher_sequence cut_option is_long_option_name
normalize-pieces [] = refl
normalize-pieces (token ∷ tokens) =
    let later = normalize-pieces tokens in
    elim (Option-cases (cut b'=' token)) [
      | inl e ↦ rw (normalize_matcher_sequence, pieces, e) (ap (λ (t : List Text). token ∷ t) later)
      | inr ((name, value), e) ↦
          elim (Bool-cases (ltb 2 (length name) && has_prefix name separator)) [
            | inl long ↦
                rw (normalize_matcher_sequence, pieces, e, long)
                  (ap (λ (t : List Text). name ∷ value ∷ t) later)
            | inr short ↦
                rw (normalize_matcher_sequence, pieces, e, short)
                  (ap (λ (t : List Text). token ∷ t) later)
          ]
    ]

-- The sequence stands in the arguments, in those in front of the separator where it begins with an
-- option.
abbrev pub HasSequence : ArgumentView → List Text → Type 0
HasSequence v [] = Unit
HasSequence v (token ∷ tokens) =
    ((has_prefix token separator ≡ false) × Occurs (pieces (token ∷ tokens)) v.normalized)
    ⊎ ((has_prefix token separator ≡ true) × Occurs (pieces (token ∷ tokens)) v.normalized_pre)

view_matches_have_sequence_iff :
    (v : ArgumentView) (sequence : List Text)
    → (view_matches_have_sequence v sequence ≡ true) ↔ HasSequence v sequence
unfolding view_matches_have_sequence
view_matches_have_sequence_iff v [] = (λ e. tt, λ h. refl)
view_matches_have_sequence_iff v (token ∷ tokens) =
    if_iff (has_prefix token separator) _ _ (occurs v.normalized_pre) (occurs v.normalized)
  where
    occurs :
        (args : List Text)
        → (contains_sequence args (normalize_matcher_sequence (token ∷ tokens)) ≡ true)
          ↔ Occurs (pieces (token ∷ tokens)) args
    occurs args =
        subst
          (λ (t : List Text).
            (contains_sequence args t ≡ true) ↔ Occurs (pieces (token ∷ tokens)) args)
          (sym (normalize-pieces (token ∷ tokens)))
          (contains_sequence_iff args (pieces (token ∷ tokens)))

-- There is no positional, or one where the case is for a leading command and that is there.
abbrev pub HasNoPositionals : ArgumentView → Bool → Type 0
HasNoPositionals v leading = length v.positionals ≤ (if leading && not (is_nil v.raw) then 1 else 0)

view_matches_no_positionals_iff :
    (v : ArgumentView) (want leading : Bool)
    → (view_matches_no_positionals v want leading ≡ true)
      ↔ ((want ≡ false) ⊎ HasNoPositionals v leading)
unfolding view_matches_no_positionals
view_matches_no_positionals_iff v false leading = (λ e. inl refl, λ h. refl)
view_matches_no_positionals_iff v true leading = (λ e. inr ((allowed v.raw).0 e), λ h. back h)
  where
    allowed :
        (raw : List Text)
        → (leb (length v.positionals) (if leading && ltb 0 (length raw) then 1 else 0) ≡ true)
          ↔ (length v.positionals ≤ (if leading && not (is_nil raw) then 1 else 0))
    allowed [] = ground arith
    allowed (a ∷ raw) = ground arith

    back :
        (true ≡ false) ⊎ HasNoPositionals v leading
        → leb (length v.positionals) (if leading && ltb 0 (length v.raw) then 1 else 0) ≡ true
    back (inl bad) = absurd (cc)
    back (inr few) = (allowed v.raw).1 few

-- A case names a first argument.
abbrev pub names_first : When → Bool
names_first w = not (is_empty w.first_is) || not (is_nil w.first_in)

-- All conditions of a case hold of the arguments, which `view` is the reading of.
pub record Holds (w : When) (args : List Text) (view : ArgumentView) : Type 0 where
  pub first_is : (w.first_is ≡ []) ⊎ First (λ a. a ≡ w.first_is) args
  pub first_in : (w.first_in ≡ []) ⊎ First (IsAmong w.first_in) args
  pub have_any : (w.have_any ≡ []) ⊎ OneOf (IsWanted view) w.have_any
  pub lack_any : (w.lack_any ≡ []) ⊎ (¬ OneOf (IsWanted view) w.lack_any)
  pub have_sequence : HasSequence view w.have_sequence
  pub have_short_flag : (w.have_short_flag ≡ []) ⊎ HasFlag view.before w.have_short_flag
  pub not_have_short_flag :
      (w.not_have_short_flag ≡ []) ⊎ (¬ HasFlag view.before w.not_have_short_flag)
  pub have_all_short_flags :
      (w.have_all_short_flags ≡ []) ⊎ (¬ OneOf (IsMissing view.before) w.have_all_short_flags)
  pub not_have_all_short_flags :
      (w.not_have_all_short_flags ≡ []) ⊎ OneOf (IsMissing view.before) w.not_have_all_short_flags
  pub positionals_lack_any :
      (w.positionals_lack_any ≡ []) ⊎ (¬ HasPositional view w.positionals_lack_any)
  pub no_positionals : (w.no_positionals ≡ false) ⊎ HasNoPositionals view (names_first w)

leading_command-names_first : (w : When) → leading_command w ≡ names_first w
leading_command-names_first w = either (is_empty w.first_is) (is_nil w.first_in)
  where
    either :
        (a b : Bool)
        → ((if a then false else true) || (if b then false else true)) ≡ (not a || not b)
    either true true = refl
    either true false = refl
    either false b = refl

-- The code's test answers true exactly where all conditions hold of the view of the arguments.
pub matches_when_arguments-Holds :
    (w : When) (flags args : List Text)
    → (matches_when_arguments w flags args ≡ true) ↔ Holds w args (parse_arguments args flags)
unfolding matches_when_arguments
matches_when_arguments-Holds w flags args =
    let view = parse_arguments args flags in
    let no_positionals =
      subst
        (λ leading.
          (view_matches_no_positionals view w.no_positionals (leading_command w) ≡ true)
          ↔ ((w.no_positionals ≡ false) ⊎ HasNoPositionals view leading))
        (leading_command-names_first w)
        (view_matches_no_positionals_iff view w.no_positionals (leading_command w)) in
    let whole =
      and_iff _ _
        (and_iff _ _
          (and_iff _ _
            (and_iff _ _
              (and_iff _ _
                (and_iff _ _
                  (and_iff _ _
                    (and_iff _ _
                      (and_iff _ _
                        (and_iff _ _ (matches_first_is_iff args w.first_is)
                          (matches_first_in_iff args w.first_in))
                        (view_matches_have_any_iff view w.have_any))
                      (view_matches_lack_any_iff view w.lack_any))
                    (view_matches_have_sequence_iff view w.have_sequence))
                  (matches_have_short_flag_iff view.before w.have_short_flag))
                (matches_not_have_short_flag_iff view.before w.not_have_short_flag))
              (matches_have_all_short_flags_iff view.before w.have_all_short_flags))
            (matches_not_have_all_short_flags_iff view.before w.not_have_all_short_flags))
          (view_matches_positionals_lack_any_iff view w.positionals_lack_any))
        no_positionals in
    (
      λ e.
          let ((((((((((a, b), c), d), s), f), g), h), i), j), k) = whole.0 e in
          record {
            first_is = a;
            first_in = b;
            have_any = c;
            lack_any = d;
            have_sequence = s;
            have_short_flag = f;
            not_have_short_flag = g;
            have_all_short_flags = h;
            not_have_all_short_flags = i;
            positionals_lack_any = j;
            no_positionals = k;
          },
      λ r. whole.1 (
        (
          (
            (
              (
                (
                  ((((r.first_is, r.first_in), r.have_any), r.lack_any), r.have_sequence),
                  r.have_short_flag,
                ),
                r.not_have_short_flag,
              ),
              r.have_all_short_flags,
            ),
            r.not_have_all_short_flags,
          ),
          r.positionals_lack_any,
        ),
        r.no_positionals,
      ),
    )

-- ===== src/Yaml/Arguments/Flags.antt =====
-- The tests of short flags and of wanted arguments as statements.
use cmdshape.Base.{
  ℕ, true, false, ◌&&◌, List, [], ◌∷◌, Option, none, some, Text, any, text_eq, text_eq_iff,
  has_prefix, cut, ◌==◌, if◌then◌else◌, ◌≡◌, ◌≢◌, ◌⊎◌, ◌↔◌, refl, ap,
}
use mathlib.Core.Option.{some-injective}
use cmdshape.Operations.{
  dash, contains_rune, cluster_has, cluster_has_flag, flag_missing, is_nil, matches_have_short_flag,
  matches_not_have_short_flag, matches_have_all_short_flags, matches_not_have_all_short_flags,
}
use cmdshape.Operations.View.{
  ArgumentView, LongOption, separator, option_is, has_long_option, has_long_option_value,
  matches_wanted_argument,
}
use cmdshape.Yaml.Arguments.Logic.{
  nand_iff, if_iff, eq_iff, and_iff, or_iff, not_iff, OneOf, any_iff, IsAmong, contains_text_iff,
  is_nil_iff,
}

-- One dash, no second one, and the letter somewhere behind it.
abbrev pub IsCluster : ℕ → Text → Type 0
IsCluster b (c ∷ d ∷ s) = ((c ≡ dash) × (d ≢ dash)) × (contains_rune (d ∷ s) b ≡ true)
IsCluster b _ = ⊥

pub cluster_has_iff : (b : ℕ) (arg : Text) → (cluster_has b arg ≡ true) ↔ IsCluster b arg
unfolding cluster_has
cluster_has_iff b [] = (λ e. absurd (cc), λ no. absurd no)
cluster_has_iff b (c ∷ []) = (λ e. absurd (cc), λ no. absurd no)
cluster_has_iff b (c ∷ d ∷ s) =
    and_iff (c == dash && (if d == dash then false else true)) (contains_rune (d ∷ s) b)
      (and_iff (c == dash) (if d == dash then false else true) (eq_iff c dash)
        (not_iff (d == dash) (eq_iff d dash)))
      (λ e. e, λ e. e)

-- The flag is a dash and a letter, of which this holds.
abbrev pub WithLetter : (ℕ → Type 0) → Text → Type 0
WithLetter P (c ∷ b ∷ []) = (c ≡ dash) × P b
WithLetter P _ = ⊥

abbrev pub IsIn : Text → Text → Type 0
IsIn arg flag = WithLetter (λ b. IsCluster b arg) flag

cluster_any-HasFlag : (arg flag : Text) → (cluster_has_flag arg flag ≡ true) ↔ IsIn arg flag
unfolding cluster_has_flag
cluster_any-HasFlag arg [] = (λ e. absurd (cc), λ no. absurd no)
cluster_any-HasFlag arg (c ∷ []) = (λ e. absurd (cc), λ no. absurd no)
cluster_any-HasFlag arg (c ∷ b ∷ []) =
    and_iff (c == dash) (cluster_has b arg) (eq_iff c dash) (cluster_has_iff b arg)
cluster_any-HasFlag arg (c ∷ b ∷ d ∷ s) = (λ e. absurd (cc), λ no. absurd no)

-- One of the arguments has one of the flags.
abbrev pub HasFlag : List Text → List Text → Type 0
HasFlag args flags = OneOf (λ arg. OneOf (IsIn arg) flags) args

any-HasFlag :
    (args flags : List Text)
    → (any (λ arg. any (cluster_has_flag arg) flags) args ≡ true) ↔ HasFlag args flags
any-HasFlag args flags =
    any_iff (λ arg. OneOf (IsIn arg) flags) (λ arg. any (cluster_has_flag arg) flags) args
      (λ arg. any_iff (IsIn arg) (cluster_has_flag arg) flags (cluster_any-HasFlag arg))

-- None of the arguments has the flag.
abbrev pub IsMissing : List Text → Text → Type 0
IsMissing args flag = ¬ WithLetter (λ b. OneOf (IsCluster b) args) flag

flag_missing_iff :
    (args : List Text) (flag : Text) → (flag_missing args flag ≡ true) ↔ IsMissing args flag
unfolding flag_missing
flag_missing_iff args [] = (λ e no. no, λ h. refl)
flag_missing_iff args (c ∷ []) = (λ e no. no, λ h. refl)
flag_missing_iff args (c ∷ b ∷ d ∷ s) = (λ e no. no, λ h. refl)
flag_missing_iff args (c ∷ b ∷ []) =
    nand_iff (c == dash) (any (cluster_has b) args) (eq_iff c dash)
      (any_iff (IsCluster b) (cluster_has b) args (cluster_has_iff b))

pub matches_have_short_flag_iff :
    (args flags : List Text)
    → (matches_have_short_flag args flags ≡ true) ↔ ((flags ≡ []) ⊎ HasFlag args flags)
unfolding matches_have_short_flag
matches_have_short_flag_iff args flags =
    or_iff (is_nil flags) _ (is_nil_iff flags) (any-HasFlag args flags)

pub matches_not_have_short_flag_iff :
    (args flags : List Text)
    → (matches_not_have_short_flag args flags ≡ true) ↔ ((flags ≡ []) ⊎ (¬ HasFlag args flags))
unfolding matches_not_have_short_flag
matches_not_have_short_flag_iff args flags =
    or_iff (is_nil flags) _ (is_nil_iff flags) (not_iff _ (any-HasFlag args flags))

pub matches_have_all_short_flags_iff :
    (args flags : List Text)
    → (matches_have_all_short_flags args flags ≡ true)
      ↔ ((flags ≡ []) ⊎ (¬ OneOf (IsMissing args) flags))
unfolding matches_have_all_short_flags
matches_have_all_short_flags_iff args flags =
    or_iff (is_nil flags) _ (is_nil_iff flags)
      (not_iff _ (any_iff (IsMissing args) (flag_missing args) flags (flag_missing_iff args)))

pub matches_not_have_all_short_flags_iff :
    (args flags : List Text)
    → (matches_not_have_all_short_flags args flags ≡ true)
      ↔ ((flags ≡ []) ⊎ OneOf (IsMissing args) flags)
unfolding matches_not_have_all_short_flags
matches_not_have_all_short_flags_iff args flags =
    or_iff (is_nil flags) _ (is_nil_iff flags)
      (any_iff (IsMissing args) (flag_missing args) flags (flag_missing_iff args))

-- The view has the long option, or the option with the value where one is given.
abbrev pub HasOption : ArgumentView → Text → Option (Text × Text) → Type 0
HasOption v want none = OneOf (λ (o : LongOption). o.name ≡ want) v.long_options
HasOption v want (some (name, value)) =
    OneOf (λ (o : LongOption). (o.name ≡ name) × (o.value ≡ some value)) v.long_options

-- What the view has of a wanted argument: the option with the value, the option, or, where it begins
-- with fewer than two dashes, the argument itself.
abbrev pub IsWanted : ArgumentView → Text → Type 0
IsWanted v want =
    ((has_prefix want separator ≡ false) × IsAmong v.raw want)
    ⊎ ((has_prefix want separator ≡ true) × HasOption v want (cut b'=' want))

option_is_iff :
    (name value : Text) (o : LongOption)
    → (option_is name value o ≡ true) ↔ ((o.name ≡ name) × (o.value ≡ some value))
option_is_iff name value o =
    and_iff (text_eq o.name name) _ (text_eq_iff o.name name) (of_value o.value)
  where
    of_value :
        (found : Option Text)
        → (elim found [ none ↦ false | some w ↦ text_eq w value ] ≡ true) ↔ (found ≡ some value)
    of_value none = (λ e. absurd (cc), λ e. absurd (cc))
    of_value (some w) = (
      λ e. ap some ((text_eq_iff w value).0 e),
      λ e. (text_eq_iff w value).1 (some-injective w value e),
    )

pub matches_wanted_argument_iff :
    (v : ArgumentView) (want : Text) → (matches_wanted_argument v want ≡ true) ↔ IsWanted v want
unfolding matches_wanted_argument has_long_option has_long_option_value
matches_wanted_argument_iff v want =
    if_iff (has_prefix want separator) _ _ (by_cut (cut b'=' want)) (contains_text_iff v.raw want)
  where
    by_cut :
        (found : Option (Text × Text))
        → (elim found [
          | some (name, value) ↦ has_long_option_value v name value
          | none ↦ has_long_option v want
        ]
            ≡ true)
          ↔ HasOption v want found
    by_cut none =
        any_iff (λ (o : LongOption). o.name ≡ want) (λ o. text_eq o.name want) v.long_options
          (λ o. text_eq_iff o.name want)
    by_cut (some (name, value)) =
        any_iff (λ (o : LongOption). (o.name ≡ name) × (o.value ≡ some value))
          (option_is name value) v.long_options (option_is_iff name value)

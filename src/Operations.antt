-- ===== src/Operations.antt =====
-- internal/filters/operations/operations.go: the tests that a filter's cases put to the arguments.
-- A text is a list of bytes here.
pub mod View
pub mod Sequence
mod Tests
use cmdshape.Base.{
  ℕ, zero, suc, ◌+◌, ◌-◌, ◌/◌, ◌%◌, Bool, true, false, ◌&&◌, ◌||◌, List, [], ◌∷◌, Option, none,
  some, Text, length, any, contains_text, text_eq, contains, ltb, ◌==◌, if◌then◌else◌, is_empty,
}
use cmdshape.Contracts.{Stream, stdout, stderr, combined, unset}
use cmdshape.Operations.Sequence.{contains_sequence}
use cmdshape.Operations.View.{
  parse_arguments, view_matches_positionals_lack_any, view_matches_no_positionals,
}

abbrev pub is_nil : List Text → Bool
is_nil [] = true
is_nil (x ∷ xs) = false

unfoldable pub matches_first_is : List Text → Text → Bool
matches_first_is [] first = is_empty first
matches_first_is (a ∷ args) first = is_empty first || text_eq a first

unfoldable pub matches_first_in : List Text → List Text → Bool
matches_first_in [] options = is_nil options
matches_first_in (a ∷ args) options = is_nil options || contains_text options a

unfoldable pub matches_have_any : List Text → List Text → Bool
matches_have_any args wants = is_nil wants || any (contains_text wants) args

unfoldable pub matches_lack_any : List Text → List Text → Bool
matches_lack_any args disallowed =
    is_nil disallowed || (if any (contains_text disallowed) args then false else true)

unfoldable pub matches_have_sequence : List Text → List Text → Bool
matches_have_sequence args sequence = is_nil sequence || contains_sequence args sequence

-- `strings.ContainsRune s (rune b)` for a byte `b`: from 0x80 on the rune is two bytes of UTF-8.
unfoldable pub contains_rune : Text → ℕ → Bool
contains_rune s b =
    if ltb b 0x80 then any (λ c. c == b) s else contains s ((0xc0 + b / 64) ∷ (0x80 + b % 64) ∷ [])

abbrev pub dash : ℕ
dash = b'-'

-- Is the argument a cluster of short flags that holds the flag's letter? The argument is longer than
-- one byte and begins with one dash; the flag's byte is given.
unfoldable pub cluster_has : ℕ → Text → Bool
cluster_has b [] = false
cluster_has b (c ∷ []) = false
cluster_has b (c ∷ d ∷ s) =
    c == dash && (if d == dash then false else true) && contains_rune (d ∷ s) b

-- The same for a flag that need not be two bytes long: then it is in no cluster.
unfoldable pub cluster_has_flag : Text → Text → Bool
cluster_has_flag arg (c ∷ b ∷ []) = c == dash && cluster_has b arg
cluster_has_flag arg _ = false

unfoldable pub matches_have_short_flag : List Text → List Text → Bool
matches_have_short_flag args flags =
    is_nil flags || any (λ arg. any (cluster_has_flag arg) flags) args

unfoldable pub matches_not_have_short_flag : List Text → List Text → Bool
matches_not_have_short_flag args flags =
    is_nil flags || (if any (λ arg. any (cluster_has_flag arg) flags) args then false else true)

-- Is the flag malformed or in none of the arguments?
unfoldable pub flag_missing : List Text → Text → Bool
flag_missing args (c ∷ b ∷ []) =
    (if c == dash then false else true) || (if any (cluster_has b) args then false else true)
flag_missing args _ = true

unfoldable pub matches_have_all_short_flags : List Text → List Text → Bool
matches_have_all_short_flags args flags =
    is_nil flags || (if any (flag_missing args) flags then false else true)

unfoldable pub matches_not_have_all_short_flags : List Text → List Text → Bool
matches_not_have_all_short_flags args flags = is_nil flags || any (flag_missing args) flags

-- `ScopeForStream`; `none` is the nil scope, and the source's flag is that there is one.
unfoldable pub scope_for_stream : {A : Type 0} → Stream → Option A → Option A → Option A → Option A
scope_for_stream stdout shared (some scope) err = some scope
scope_for_stream stderr shared out (some scope) = some scope
scope_for_stream _ shared _ _ = shared

unfoldable pub matches_positionals_lack_any : List Text → List Text → List Text → Bool
matches_positionals_lack_any args disallowed value_flags =
    view_matches_positionals_lack_any (parse_arguments args value_flags) disallowed

unfoldable pub has_explicit_positionals : List Text → List Text → Bool
has_explicit_positionals args value_flags =
    if is_nil (parse_arguments args value_flags).positionals then false else true

unfoldable pub matches_no_positionals : List Text → List Text → Bool → Bool → Bool
matches_no_positionals args value_flags want allow_leading_command =
    view_matches_no_positionals (parse_arguments args value_flags) want allow_leading_command

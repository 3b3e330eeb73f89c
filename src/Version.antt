-- ===== src/Version.antt =====
-- internal/version/semver.go: semantic versions of three uint64 components.
pub mod Decimal
pub mod Digits
pub mod RoundTrip
pub mod Order
mod Tests
use mathlib.Core.WellFounded.{Acc, WellFounded}
use cmdshape.Base.{
  ℕ, zero, suc, ◌+◌, ◌-◌, ◌*◌, ◌/◌, ◌%◌, ◌<◌, Bool, true, false, ◌&&◌, ◌||◌, List, [], ◌∷◌, ◌++◌,
  Option, none, some, Text, ℤ, pos, negsuc, ltb, ◌==◌, if◌then◌else◌, split, length, join,
}
use cmdshape.Version.Decimal.{parse_uint, format_uint}

pub record Semantic : Type 0 where
  pub major : ℕ
  pub minor : ℕ
  pub patch : ℕ

-- One decimal number, with no leading zero.
unfoldable pub parse_component : Text → Option ℕ
parse_component [] = none
parse_component (c ∷ []) = parse_uint (c ∷ [])
parse_component (c ∷ d ∷ raw) = if c == b'0' then none else parse_uint (c ∷ d ∷ raw)

infixl 5 ◌>>=◌
abbrev pub ◌>>=◌ : {A B : Type 0} → Option A → (A → Option B) → Option B
none >>= f = none
some a >>= f = f a

unfoldable pub parse_parts : List Text → Option Semantic
parse_parts (a ∷ b ∷ c ∷ []) = do
  major ← parse_component a
  minor ← parse_component b
  patch ← parse_component c
  some (record { major = major; minor = minor; patch = patch })
parse_parts _ = none

unfoldable pub parse : Text → Option Semantic
parse raw = parse_parts (split b'.' raw)

-- `String`
unfoldable pub format : Semantic → Text
format s = format_uint s.major ++ (b'.' ∷ (format_uint s.minor ++ (b'.' ∷ format_uint s.patch)))

-- -1, 0 or 1
unfoldable pub compare : Semantic → Semantic → ℤ
compare s other =
    if (if s.major == other.major then false else true)
    then if ltb s.major other.major then negsuc 0 else pos 1
    else if (if s.minor == other.minor then false else true)
    then if ltb s.minor other.minor then negsuc 0 else pos 1
    else if (if s.patch == other.patch then false else true)
    then if ltb s.patch other.patch then negsuc 0 else pos 1
    else pos 0

unfoldable pub less : Semantic → Semantic → Bool
less s other = elim (compare s other) [ negsuc n ↦ true | pos n ↦ false ]

unfoldable pub at_least : Semantic → Semantic → Bool
at_least s other = elim (compare s other) [ negsuc n ↦ false | pos n ↦ true ]

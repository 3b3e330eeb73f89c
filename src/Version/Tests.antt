-- ===== src/Version/Tests.antt =====
-- Versions on small inputs.
use cmdshape.Base.{ℕ, true, some, codes, ◌≡◌, refl, arith}
use cmdshape.Version.{Semantic, parse, compare, less, parse_component, parse_parts}
use cmdshape.Version.Decimal.{parse_uint, parse_digits}
use cmdshape.Version.RoundTrip.{IsVersion}

abbrev version : ℕ → ℕ → ℕ → Semantic
version a b c = record { major = a; minor = b; patch = c }

small : IsVersion (version 1 20 3)
small = record { major = omega arith; minor = omega arith; patch = omega arith }

parsed : parse (codes "1.20.3") ≡ some (version 1 20 3)
unfolding parse parse_parts parse_component parse_uint parse_digits
parsed = refl

first_less : less (version 1 2 3) (version 1 3 0) ≡ true
unfolding less compare
first_less = refl

second_less : less (version 1 3 0) (version 2 0 0) ≡ true
unfolding less compare
second_less = refl

-- ===== src/Version/Order.antt =====
-- `Compare` is a linear order, the lexicographic one.
use cmdshape.Base.{◌<◌, true, false, ◌≡◌, ◌↔◌, ◌⊎◌, if◌then◌else◌, arith, pos}
use cmdshape.Version.{Semantic, compare, less, at_least}

-- The lexicographic order of the components.
abbrev pub IsBefore : Semantic → Semantic → Type 0
IsBefore s t =
    (s.major < t.major)
    ⊎ ((s.major ≡ t.major) × (s.minor < t.minor))
    ⊎ ((s.major ≡ t.major) × (s.minor ≡ t.minor) × (s.patch < t.patch))

at_least_lem : (s t : Semantic) → at_least s t ≡ (if less s t then false else true)
unfolding at_least less
at_least_lem s t = ground arith

-- `Less` is the lexicographic order of the components, `AtLeast` its negation, and `Compare` is 0 for
-- equal versions alone.
pub compare_lem :
    (s t : Semantic)
    → ((less s t ≡ true) ↔ IsBefore s t)
      × (at_least s t ≡ (if less s t then false else true))
      × ((compare s t ≡ pos 0) ↔ (s ≡ t))
unfolding less at_least compare
compare_lem s t = (ground arith, at_least_lem s t, ground arith)

-- `Less` is transitive.
pub less_trans : (s t u : Semantic) → less s t ≡ true → less t u ≡ true → less s u ≡ true
unfolding less compare
less_trans s t u h k = ground arith

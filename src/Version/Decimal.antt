-- ===== src/Version/Decimal.antt =====
-- The decimal numbers of Go's `strconv.ParseUint` (base 10, 64 bits) and of `%d`.
use cmdshape.Base.{
  ℕ, zero, suc, ◌+◌, ◌-◌, ◌*◌, ◌/◌, ◌%◌, ◌&&◌, [], ◌∷◌, Option, none, some, Text, ltb, leb, ◌==◌,
  if◌then◌else◌, u64_mod,
}

-- `ParseUint` from the value read so far: any other character or a value of 2 ^ 64 and more is
-- an error.
unfoldable pub parse_digits : ℕ → Text → Option ℕ
parse_digits n [] = some n
parse_digits n (c ∷ s) =
    let next = n * 10 + (c - b'0') in
    let rest = parse_digits next s in
    if (leb b'0' c && leb c b'9') && ltb next u64_mod then rest else none

unfoldable pub parse_uint : Text → Option ℕ
parse_uint [] = none
parse_uint (c ∷ s) = parse_digits 0 (c ∷ s)

-- `%d`: the digits in front of `out`; the fuel is more than there are digits.
unfoldable pub format_digits : ℕ → ℕ → Text → Text
format_digits zero n out = out
format_digits (suc f) n out =
    let rest = format_digits f (n / 10) ((b'0' + n % 10) ∷ out) in if n == 0 then out else rest

unfoldable pub format_uint : ℕ → Text
format_uint n = if n == 0 then b'0' ∷ [] else format_digits n n []

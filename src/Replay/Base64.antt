-- ===== src/Replay/Base64.antt =====
-- Go's `base64.StdEncoding`, as the payloads of a recording use it.
use cmdshape.Base.{
  ℕ, ◌+◌, ◌-◌, ◌*◌, ◌/◌, ◌%◌, ◌<◌, false, ◌&&◌, ◌||◌, [], ◌∷◌, Option, none, some, Text, leb, ltb,
  ◌==◌, if◌then◌else◌, is_empty, select, not, ◌≡◌, refl, ap, ◌∙◌, arith, All, ◌>>=◌,
}

-- The character of six bits, and the six bits of a character.
unfoldable pub symbol : ℕ → ℕ
symbol v =
    if ltb v 26
    then b'A' + v
    else if ltb v 52
    then b'a' + (v - 26)
    else if ltb v 62
    then b'0' + (v - 52)
    else if v == 62
    then b'+'
    else b'/'

unfoldable pub six_bits : ℕ → Option ℕ
six_bits c =
    if leb b'A' c && leb c b'Z'
    then some (c - b'A')
    else if leb b'a' c && leb c b'z'
    then some (c - b'a' + 26)
    else if leb b'0' c && leb c b'9'
    then some (c - b'0' + 52)
    else if c == b'+'
    then some 62
    else if c == b'/'
    then some 63
    else none

abbrev padding : ℕ
padding = b'='

unfoldable pub encode_base64 : Text → Text
encode_base64 [] = []
encode_base64 (a ∷ []) = symbol (a / 4) ∷ symbol (a % 4 * 16) ∷ padding ∷ padding ∷ []
encode_base64 (a ∷ b ∷ []) =
    symbol (a / 4) ∷ symbol (a % 4 * 16 + b / 16) ∷ symbol (b % 16 * 4) ∷ padding ∷ []
encode_base64 (a ∷ b ∷ c ∷ s) =
    symbol (a / 4)
    ∷ symbol (a % 4 * 16 + b / 16)
    ∷ symbol (b % 16 * 4 + c / 64)
    ∷ symbol (c % 64)
    ∷ encode_base64 s

-- Characters in groups of four; only the last one may be padded.
unfoldable pub decode_groups : Text → Option Text
decode_groups [] = some []
decode_groups (p ∷ q ∷ r ∷ t ∷ rest) =
    let more = decode_groups rest in
    six_bits p >>= λ x. six_bits q >>= λ y.
    if r == padding
    then (if t == padding && is_empty rest then some ((x * 4 + y / 16) ∷ []) else none)
    else six_bits r >>= λ z.
        if t == padding
        then (if is_empty rest then some ((x * 4 + y / 16) ∷ (y % 16 * 16 + z / 4) ∷ []) else none)
        else six_bits t >>= λ w.
            more >>= λ s. some ((x * 4 + y / 16) ∷ (y % 16 * 16 + z / 4) ∷ (z % 4 * 64 + w) ∷ s)
decode_groups _ = none

-- The ends of lines are passed over.
unfoldable pub decode_base64 : Text → Option Text
decode_base64 s = decode_groups (select (λ c. not (c == 10 || c == 13)) s)

six_bits-symbol : (v : ℕ) → v < 64 → six_bits (symbol v) ≡ some v
unfolding six_bits symbol
six_bits-symbol v h = ground (arith, h)

-- No symbol is a padding or the end of a line.
symbol-plain :
    (v : ℕ)
    → v < 64
    → ((symbol v == padding) ≡ false) × ((symbol v == 10 || symbol v == 13) ≡ false)
unfolding symbol
symbol-plain v h = (ground (arith, h), ground (arith, h))

abbrev pub IsBytes : Text → Type 0
IsBytes s = All (λ c. c < 256) s

decode_groups-encode : (s : Text) → IsBytes s → decode_groups (encode_base64 s) ≡ some s
unfolding decode_groups encode_base64
decode_groups-encode [] h = refl
decode_groups-encode (a ∷ []) (ha, _) =
    rw (six_bits-symbol (a / 4) (omega (arith, ha)), six_bits-symbol (a % 4 * 16) (omega arith))
      (ap some (ap (λ x. x ∷ []) (omega (arith, ha))))
decode_groups-encode (a ∷ b ∷ []) (ha, (hb, _)) =
    let x = a / 4 in
    let y = a % 4 * 16 + b / 16 in
    let z = b % 16 * 4 in
    let first : x * 4 + y / 16 ≡ a = omega (arith, ha, hb) in
    let second : y % 16 * 16 + z / 4 ≡ b = omega (arith, ha, hb) in
    rw
      (
        six_bits-symbol x (omega (arith, ha)),
        six_bits-symbol y (omega (arith, ha, hb)),
        (symbol-plain z (omega arith)).0,
        six_bits-symbol z (omega arith),
        first,
        second,
      )
      refl
decode_groups-encode (a ∷ b ∷ c ∷ s) (ha, (hb, (hc, h))) =
    let x = a / 4 in
    let y = a % 4 * 16 + b / 16 in
    let z = b % 16 * 4 + c / 64 in
    let w = c % 64 in
    let first : x * 4 + y / 16 ≡ a = omega (arith, ha, hb) in
    let second : y % 16 * 16 + z / 4 ≡ b = omega (arith, ha, hb, hc) in
    let third : z % 4 * 64 + w ≡ c = omega (arith, hc) in
    rw
      (
        six_bits-symbol x (omega (arith, ha)),
        six_bits-symbol y (omega (arith, ha, hb)),
        (symbol-plain z (omega (arith, hc))).0,
        six_bits-symbol z (omega (arith, hc)),
        (symbol-plain w (omega arith)).0,
        six_bits-symbol w (omega arith),
        decode_groups-encode s h,
        first,
        second,
        third,
      )
      refl

-- What is encoded has no end of a line.
pub encode_base64_plain :
    (s : Text) → IsBytes s → All (λ c. (c == 10 || c == 13) ≡ false) (encode_base64 s)
unfolding encode_base64
encode_base64_plain [] h = tt
encode_base64_plain (a ∷ []) (ha, _) = (
  (symbol-plain (a / 4) (omega (arith, ha))).1,
  ((symbol-plain (a % 4 * 16) (omega arith)).1, (refl, (refl, tt))),
)
encode_base64_plain (a ∷ b ∷ []) (ha, (hb, _)) = (
  (symbol-plain (a / 4) (omega (arith, ha))).1,
  (
    (symbol-plain (a % 4 * 16 + b / 16) (omega (arith, hb))).1,
    ((symbol-plain (b % 16 * 4) (omega arith)).1, (refl, tt)),
  ),
)
encode_base64_plain (a ∷ b ∷ c ∷ s) (ha, (hb, (hc, h))) = (
  (symbol-plain (a / 4) (omega (arith, ha))).1,
  (
    (symbol-plain (a % 4 * 16 + b / 16) (omega (arith, hb))).1,
    (
      (symbol-plain (b % 16 * 4 + c / 64) (omega (arith, hc))).1,
      ((symbol-plain (c % 64) (omega arith)).1, encode_base64_plain s h),
    ),
  ),
)

select-plain :
    (s : Text)
    → All (λ c. (c == 10 || c == 13) ≡ false) s
    → select (λ c. not (c == 10 || c == 13)) s ≡ s
select-plain [] h = refl
select-plain (c ∷ s) (first, rest) = rw first (ap (λ (t : Text). c ∷ t) (select-plain s rest))

pub decode_base64-encode_base64 : (s : Text) → IsBytes s → decode_base64 (encode_base64 s) ≡ some s
unfolding decode_base64
decode_base64-encode_base64 s h =
    ap decode_groups (select-plain (encode_base64 s) (encode_base64_plain s h))
    ∙ decode_groups-encode s h

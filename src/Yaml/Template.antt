-- ===== src/Yaml/Template.antt =====
-- internal/filters/yaml/yaml_filter.go: maps of texts, templates, and counters kept as text.
use cmdshape.Base.{
  ℕ, ◌+◌, ◌-◌, ◌*◌, ◌%◌, ◌^◌, ◌&&◌, [], ◌∷◌, ◌++◌, Text, codes, text_eq, replace_all, ltb, leb,
  ◌==◌, if◌then◌else◌, u64_mod,
}
use cmdshape.Version.Decimal.{format_uint}
use cmdshape.Yaml.Model.{Variables}

-- A missing name has the empty text.
unfoldable pub lookup : Variables → Text → Text
lookup [] name = []
lookup ((n, v) ∷ vars) name = let rest = lookup vars name in if text_eq n name then v else rest

unfoldable pub assign : Variables → Text → Text → Variables
assign [] name value = (name, value) ∷ []
assign ((n, v) ∷ vars) name value =
    let rest = assign vars name value in if text_eq n name then (n, value) ∷ vars else (n, v) ∷ rest

-- `maps.Copy(dst, src)`
unfoldable pub copy : Variables → Variables → Variables
copy dst [] = dst
copy dst ((n, v) ∷ src) = copy (assign dst n v) src

unfoldable pub render_template : Text → Variables → Text
render_template template [] = template
render_template template ((name, value) ∷ values) =
    render_template (replace_all template (codes "{{" ++ (name ++ codes "}}")) value) values

abbrev pub i64_max : ℕ
i64_max = 2 ^ 63 - 1

-- The digits of `strconv.Atoi` as a magnitude that stays at 2 ^ 64 - 1 once it gets there; a
-- character that is no digit makes the whole 0.
unfoldable pub read_digits : ℕ → Text → ℕ
read_digits n [] = n
read_digits n (c ∷ s) =
    let next = n * 10 + (c - b'0') in
    let rest = read_digits next s in
    if leb b'0' c && leb c b'9' then if ltb next u64_mod then rest else u64_mod - 1 else 0

-- `n, _ := strconv.Atoi(s)`: the 64 bits of the result. An error of syntax gives 0, a number out of
-- range the nearest one in range.
unfoldable pub atoi : Text → ℕ
atoi [] = 0
atoi (c ∷ s) =
    let positive = λ (n : ℕ). if leb n i64_max then n else i64_max in
    let negative = λ (n : ℕ). if leb n (2 ^ 63) then (u64_mod - n) % u64_mod else 2 ^ 63 in
    if c == b'-'
    then negative (read_digits 0 s)
    else if c == b'+'
    then positive (read_digits 0 s)
    else positive (read_digits 0 (c ∷ s))

-- `strconv.Itoa` on the 64 bits of a number
unfoldable pub itoa : ℕ → Text
itoa n = if leb n i64_max then format_uint n else b'-' ∷ format_uint (u64_mod - n)

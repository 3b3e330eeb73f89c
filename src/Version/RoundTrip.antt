-- ===== src/Version/RoundTrip.antt =====
-- `Parse` and `String` undo one another.
use cmdshape.Base.{
  ℕ, ◌<◌, false, List, [], ◌∷◌, ◌++◌, some, Text, ◌==◌, u64_mod, arith, ◌≡◌, refl, ◌∙◌, sym, ap,
  inl, inr, ◌≢◌, any, split, join, Bool-cases, split_onto, append_assoc, append-nil,
}
use cmdshape.Version.Decimal.{parse_uint, format_uint, parse_digits}
use cmdshape.Version.Digits.{
  is_dot, format_uint_dots, parse-format_uint, format_uint_first, format_uint-parse,
}
use cmdshape.Version.{Semantic, parse_component, parse_parts, parse, format}

split_onto-dot :
    (s rest cur : Text)
    → any is_dot s ≡ false
    → split_onto b'.' cur (s ++ b'.' ∷ rest) ≡ (cur ++ s) ∷ split b'.' rest
split_onto-dot [] rest cur h = rw append-nil
split_onto-dot (c ∷ s) rest cur h =
    let plain : (c == b'.') ≡ false = ground arith in
    rw plain (split_onto-dot s rest (cur ++ c ∷ []) (ground arith) ∙ rw append_assoc)

split_onto-plain : (s cur : Text) → any is_dot s ≡ false → split_onto b'.' cur s ≡ (cur ++ s) ∷ []
split_onto-plain [] cur h = rw append-nil
split_onto-plain (c ∷ s) cur h =
    let plain : (c == b'.') ≡ false = ground arith in
    rw plain (split_onto-plain s (cur ++ c ∷ []) (ground arith) ∙ rw append_assoc)

component_of : (c : ℕ) (t : Text) → c ≢ b'0' → parse_component (c ∷ t) ≡ parse_uint (c ∷ t)
unfolding parse_component
component_of c [] h = refl
component_of c (d ∷ t) h = ground arith

parse_component-format : (n : ℕ) → n < u64_mod → parse_component (format_uint n) ≡ some n
parse_component-format n h =
    let back = parse-format_uint n h in
    elim (format_uint_first n) [
      | inl zero_digit ↦ unfold parse_component in rw zero_digit (rw zero_digit at back)
      | inr (c, t, e, big) ↦ rw e (component_of c t (omega arith) ∙ rw e at back)
    ]

pub record IsVersion (s : Semantic) : Type 0 where
  pub major : s.major < u64_mod
  pub minor : s.minor < u64_mod
  pub patch : s.patch < u64_mod

-- Every version of three uint64 components is read back from its text.
pub parse-format : (s : Semantic) → IsVersion s → parse (format s) ≡ some s
unfolding parse format parse_parts
parse-format s i =
    rw
      (
        split_onto-dot (format_uint s.major) _ [] (format_uint_dots s.major),
        split_onto-dot (format_uint s.minor) _ [] (format_uint_dots s.minor),
        split_onto-plain (format_uint s.patch) [] (format_uint_dots s.patch),
      )
      (rw (
        parse_component-format s.major i.major,
        parse_component-format s.minor i.minor,
        parse_component-format s.patch i.patch,
      ))

parse_component_sound : (t : Text) (n : ℕ) → parse_component t ≡ some n → format_uint n ≡ t
unfolding parse_component
parse_component_sound [] n e = cc
parse_component_sound (c ∷ []) n e = elim (Bool-cases (c == b'0')) [
  | inl zero_digit ↦
      let is_zero : c ≡ b'0' = ground arith in
      let value : n ≡ 0 = unfold parse_uint parse_digits in ground arith in
      rw (is_zero, value) (unfold format_uint in refl)
  | inr other ↦ (format_uint-parse c [] n (ground arith) e).0
]
parse_component_sound (c ∷ d ∷ t) n e =
    (format_uint-parse c (d ∷ t) n (ground arith) (ground arith)).0

parse_parts_sound :
    (ps : List Text) (s : Semantic)
    → parse_parts ps ≡ some s
    → (a : Text) × (b : Text) × (c : Text) × (ps ≡ a ∷ b ∷ c ∷ [])
      × (parse_component a ≡ some s.major)
      × (parse_component b ≡ some s.minor)
      × (parse_component c ≡ some s.patch)
unfolding parse_parts
parse_parts_sound [] s e = cc
parse_parts_sound (a ∷ []) s e = cc
parse_parts_sound (a ∷ b ∷ []) s e = cc
parse_parts_sound (a ∷ b ∷ c ∷ []) s e = (a, b, c, refl, ground arith, ground arith, ground arith)
parse_parts_sound (a ∷ b ∷ c ∷ d ∷ r) s e = cc

split_onto-cons :
    (sep : ℕ) (s cur : Text) → (h : Text) × (t : List Text) × (split_onto sep cur s ≡ h ∷ t)
split_onto-cons sep [] cur = (cur, [], refl)
split_onto-cons sep (c ∷ s) cur = elim (Bool-cases (c == sep)) [
  | inl here ↦ (cur, split sep s, rw here)
  | inr on ↦ let (h, t, e) = split_onto-cons sep s (cur ++ c ∷ []) in (h, t, rw on e)
]

join-split_onto : (sep : ℕ) (s cur : Text) → join (split_onto sep cur s) (sep ∷ []) ≡ cur ++ s
join-split_onto sep [] cur = sym (append-nil cur)
join-split_onto sep (c ∷ s) cur = elim (Bool-cases (c == sep)) [
  | inl here ↦
      let (h, t, e) = split_onto-cons sep s [] in
      let same : c ≡ sep = ground arith in
      rw here
        (rw (e, same) (ap (λ (u : Text). cur ++ sep ∷ u) (rw e at (join-split_onto sep s []))))
  | inr on ↦ rw on (join-split_onto sep s (cur ++ c ∷ []) ∙ append_assoc cur (c ∷ []) s)
]

-- A text that parses is the text of the version that it parses to: there is no second spelling.
pub format-parse : (raw : Text) (s : Semantic) → parse raw ≡ some s → format s ≡ raw
unfolding parse format
format-parse raw s h =
    let (a, b, c, parts, ea, eb, ec) = parse_parts_sound (split b'.' raw) s h in
    let whole = join-split_onto b'.' raw [] in
    rw (parse_component_sound a _ ea, parse_component_sound b _ eb, parse_component_sound c _ ec)
      (rw parts at whole)

parse_component_bound : (t : Text) (n : ℕ) → parse_component t ≡ some n → n < u64_mod
unfolding parse_component
parse_component_bound [] n e = cc
parse_component_bound (c ∷ []) n e = elim (Bool-cases (c == b'0')) [
  | inl zero_digit ↦
      let is_zero : c ≡ b'0' = ground arith in
      let value : n ≡ 0 = unfold parse_uint parse_digits in ground arith in omega (arith, value)
  | inr other ↦ (format_uint-parse c [] n (ground arith) e).1
]
parse_component_bound (c ∷ d ∷ t) n e =
    (format_uint-parse c (d ∷ t) n (ground arith) (ground arith)).1

-- The components of a version that is read are uint64.
pub parse-IsVersion : (raw : Text) (s : Semantic) → parse raw ≡ some s → IsVersion s
unfolding parse
parse-IsVersion raw s h =
    let (a, b, c, parts, ea, eb, ec) = parse_parts_sound (split b'.' raw) s h in
    record {
      major = parse_component_bound a s.major ea;
      minor = parse_component_bound b s.minor eb;
      patch = parse_component_bound c s.patch ec;
    }

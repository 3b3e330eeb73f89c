-- ===== src/Version/Digits.antt =====
-- Printing a number and reading it back, both ways.
use cmdshape.Base.{
  ◌⊎◌, ℕ, zero, suc, ◌+◌, ◌-◌, ◌*◌, ◌/◌, ◌%◌, ◌<◌, ◌≤◌, Bool, false, [], ◌∷◌, ◌++◌, some, Text,
  ◌==◌, u64_mod, arith, ◌≡◌, refl, ◌∙◌, sym, ap, Bool-cases, inl, inr, ◌≢◌, any, append-nil,
}
use cmdshape.Version.Decimal.{parse_digits, parse_uint, format_digits, format_uint}

format_digits_zero : (f : ℕ) (out : Text) → format_digits f 0 out ≡ out
unfolding format_digits
format_digits_zero zero out = refl
format_digits_zero (suc f) out = refl

format_digits_step :
    (f n : ℕ) (out : Text)
    → 0 < n
    → format_digits (suc f) n out ≡ format_digits f (n / 10) ((b'0' + n % 10) ∷ out)
unfolding format_digits
format_digits_step f n out h = ground arith

-- Any fuel from `n` on is enough.
format_digits_fuel :
    (f g n : ℕ) (out : Text) → n ≤ f → n ≤ g → format_digits f n out ≡ format_digits g n out
format_digits_fuel f g zero out h k = format_digits_zero f out ∙ sym (format_digits_zero g out)
format_digits_fuel zero g (suc n) out h k = absurd (omega arith)
format_digits_fuel (suc f) zero (suc n) out h k = absurd (omega arith)
format_digits_fuel (suc f) (suc g) (suc n) out h k =
    format_digits_step f (suc n) out (omega arith)
    ∙ format_digits_fuel f g (suc n / 10) ((b'0' + suc n % 10) ∷ out) (omega arith) (omega arith)
    ∙ sym (format_digits_step g (suc n) out (omega arith))

parse_digits_last :
    (n : ℕ) (out : Text)
    → n < u64_mod
    → parse_digits (n / 10) ((b'0' + n % 10) ∷ out) ≡ parse_digits n out
unfolding parse_digits
parse_digits_last n out h =
    let whole : n / 10 * 10 + (b'0' + n % 10 - b'0') ≡ n = omega arith in rw whole (ground arith)

parse-format_digits :
    (f n : ℕ) (out : Text)
    → n ≤ f
    → n < u64_mod
    → parse_digits 0 (format_digits f n out) ≡ parse_digits n out
parse-format_digits f zero out h k = rw (format_digits_zero f out)
parse-format_digits zero (suc n) out h k = absurd (omega arith)
parse-format_digits (suc f) (suc n) out h k =
    ap (parse_digits 0) (format_digits_step f (suc n) out (omega arith))
    ∙ parse-format_digits f (suc n / 10) ((b'0' + suc n % 10) ∷ out) (omega arith) (omega arith)
    ∙ parse_digits_last (suc n) out k

-- The digits of a positive number begin with one that is not 0, and none is a dot.
format_digits_first :
    (f n : ℕ) (out : Text)
    → 0 < n
    → n ≤ f
    → (c : ℕ) × (t : Text) × (format_digits f n out ≡ c ∷ t) × (b'0' < c)
format_digits_first zero n out h k = absurd (omega arith)
format_digits_first (suc f) n out h k = elim (Bool-cases (n / 10 == 0)) [
  | inl one_digit ↦
      let small : n / 10 ≡ 0 = ground arith in
      (
        b'0' + n % 10,
        out,
        format_digits_step f n out h ∙ rw small (format_digits_zero f _),
        omega arith,
      )
  | inr more ↦
      let (c, t, e, big) =
        format_digits_first f (n / 10) ((b'0' + n % 10) ∷ out) (ground arith) (omega arith) in
      (c, t, format_digits_step f n out h ∙ e, big)
]

abbrev pub is_dot : ℕ → Bool
is_dot c = c == b'.'

format_digits_dots :
    (f n : ℕ) (out : Text) → any is_dot out ≡ false → any is_dot (format_digits f n out) ≡ false
unfolding format_digits
format_digits_dots zero n out h = h
format_digits_dots (suc f) n out h =
    ground (arith, format_digits_dots f (n / 10) ((b'0' + n % 10) ∷ out))

pub format_uint_dots : (n : ℕ) → any is_dot (format_uint n) ≡ false
unfolding format_uint
format_uint_dots n = ground (arith, format_digits_dots n n [])

format_uint_pos : (n : ℕ) → 0 < n → format_uint n ≡ format_digits n n []
unfolding format_uint
format_uint_pos n h = ground arith

-- A printed number is read back, and begins with a 0 only if it is 0.
pub parse-format_uint : (n : ℕ) → n < u64_mod → parse_uint (format_uint n) ≡ some n
parse-format_uint zero h = unfold parse_uint format_uint parse_digits in refl
parse-format_uint (suc n) h =
    let (c, t, e, big) = format_digits_first (suc n) (suc n) [] (omega arith) (omega arith) in
    let back = parse-format_digits (suc n) (suc n) [] (omega arith) h in
    let printed = format_uint_pos (suc n) (omega arith) ∙ e in
    let reads : (c : ℕ) (t : Text) → parse_uint (c ∷ t) ≡ parse_digits 0 (c ∷ t) =
      λ c t. unfold parse_uint in refl in
    let ends : parse_digits (suc n) [] ≡ some (suc n) = unfold parse_digits in refl in
    ap parse_uint printed ∙ reads c t ∙ ap (parse_digits 0) (sym e) ∙ back ∙ ends

pub format_uint_first :
    (n : ℕ)
    → (format_uint n ≡ b'0' ∷ []) ⊎ ((c : ℕ) × (t : Text) × (format_uint n ≡ c ∷ t) × (b'0' < c))
format_uint_first zero = inl (unfold format_uint in refl)
format_uint_first (suc n) =
    let (c, t, e, big) = format_digits_first (suc n) (suc n) [] (omega arith) (omega arith) in
    inr (c, t, format_uint_pos (suc n) (omega arith) ∙ e, big)

-- Reading digits onto `m` undoes printing: what is printed is `m` and the digits.
format_digits-parse :
    (s out : Text) (m r : ℕ)
    → 0 < m
    → parse_digits m s ≡ some r
    → format_digits r r out ≡ format_digits m m (s ++ out)
unfolding parse_digits
format_digits-parse [] out m r p h = cc
format_digits-parse (c ∷ s) out m r p h =
    let next = m * 10 + (c - b'0') in
    let digit : (b'0' ≤ c) × (c ≤ b'9') = ground arith in
    let rest : parse_digits next s ≡ some r = ground arith in
    let quotient : next / 10 ≡ m = omega arith in
    let last : b'0' + next % 10 ≡ c = omega arith in
    format_digits-parse s out next r (omega arith) rest
    ∙ format_digits_fuel next (suc next) next (s ++ out) (omega arith) (omega arith)
    ∙ format_digits_step next next (s ++ out) (omega arith)
    ∙ rw (quotient, last) (format_digits_fuel next m m (c ∷ s ++ out) (omega arith) (omega arith))

parse_digits_le :
    (s : Text) (n r : ℕ) → n < u64_mod → parse_digits n s ≡ some r → (r < u64_mod) × (n ≤ r)
unfolding parse_digits
parse_digits_le [] n r h e = ground arith
parse_digits_le (c ∷ s) n r h e = ground (arith, parse_digits_le s (n * 10 + (c - b'0')) r)

-- A text that begins with a digit other than 0, and that parses, is what the number prints.
pub format_uint-parse :
    (c : ℕ) (s : Text) (r : ℕ)
    → c ≢ b'0'
    → parse_uint (c ∷ s) ≡ some r
    → (format_uint r ≡ c ∷ s) × (r < u64_mod)
unfolding parse_uint parse_digits
format_uint-parse c s r h e =
    let first = 0 * 10 + (c - b'0') in
    let digit : (b'0' ≤ c) × (c ≤ b'9') = ground arith in
    let rest : parse_digits first s ≡ some r = ground arith in
    let (bound, grown) = parse_digits_le s first r (omega arith) rest in
    let last : b'0' + first % 10 ≡ c = omega arith in
    let gone : first / 10 ≡ 0 = omega arith in
    (
      format_uint_pos r (omega arith)
          ∙ format_digits-parse s [] first r (omega arith) rest
          ∙ format_digits_fuel first (suc first) first (s ++ []) (omega arith) (omega arith)
          ∙ format_digits_step first first (s ++ []) (omega arith)
          ∙ rw (gone, last, append-nil) (format_digits_zero first (c ∷ s)),
      bound,
    )

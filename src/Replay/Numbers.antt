-- ===== src/Replay/Numbers.antt =====
-- The numbers of the events of a recording are printed in digits and read again.
use cmdshape.Base.{
  ℕ, zero, suc, ◌+◌, ◌-◌, ◌/◌, ◌%◌, ◌^◌, ◌<◌, ◌≤◌, false, [], ◌∷◌, ◌++◌, some, Text, pos, length,
  ◌==◌, ◌≡◌, refl, sym, ap, ◌∙◌, subst, inl, inr, Bool-cases, arith, All, All-append, u64_mod,
}
use cmdshape.Version.Decimal.{parse_digits, parse_uint, format_digits, format_uint}
use cmdshape.Version.Digits.{parse-format_uint, format_uint_first}
use cmdshape.Replay.{zeros, format_sequence, atoi}

abbrev pub IsDigit : ℕ → Type 0
IsDigit c = (b'0' ≤ c) × (c ≤ b'9')

format_digits-IsDigit :
    (f n : ℕ) (out : Text) → All IsDigit out → All IsDigit (format_digits f n out)
unfolding format_digits
format_digits-IsDigit zero n out h = h
format_digits-IsDigit (suc f) n out h = elim (Bool-cases (n == 0)) [
  | inl e ↦ rw e h
  | inr e ↦
      rw e
        (format_digits-IsDigit f (n / 10) ((b'0' + n % 10) ∷ out) ((omega arith, omega arith), h))
]

format_uint-IsDigit : (n : ℕ) → All IsDigit (format_uint n)
unfolding format_uint
format_uint-IsDigit n = elim (Bool-cases (n == 0)) [
  | inl e ↦ rw e ((omega arith, omega arith), tt)
  | inr e ↦ rw e (format_digits-IsDigit n n [] tt)
]

zeros-IsDigit : (k : ℕ) → All IsDigit (zeros k)
unfolding zeros
zeros-IsDigit zero = tt
zeros-IsDigit (suc k) = ((omega arith, omega arith), zeros-IsDigit k)

pub format_sequence-IsDigit : (n : ℕ) → All IsDigit (format_sequence (pos n))
unfolding format_sequence
format_sequence-IsDigit n =
    All-append IsDigit (zeros (5 - length (format_uint n))) (format_uint n) (zeros-IsDigit _)
      (format_uint-IsDigit n)

parse_digits-zeros : (k : ℕ) (s : Text) → parse_digits 0 (zeros k ++ s) ≡ parse_digits 0 s
unfolding parse_digits zeros
parse_digits-zeros zero s = refl
parse_digits-zeros (suc k) s = parse_digits-zeros k s

-- A text that is not empty and begins with a digit is read without a sign.
IsStart : Text → Type 0
IsStart s = (c : ℕ) × (t : Text) × (s ≡ c ∷ t) × IsDigit c

zeros-IsStart : (k : ℕ) (s : Text) → IsStart s → IsStart (zeros k ++ s)
unfolding zeros IsStart
zeros-IsStart zero s h = h
zeros-IsStart (suc k) s h = (b'0', zeros k ++ s, refl, (omega arith, omega arith))

format_uint-IsStart : (n : ℕ) → IsStart (format_uint n)
unfolding IsStart
format_uint-IsStart n =
    let digits = format_uint-IsDigit n in
    elim (format_uint_first n) [
      | inl e ↦ (b'0', [], e, (omega arith, omega arith))
      | inr (c, t, e, _) ↦ (c, t, e, (subst (All IsDigit) e digits).0)
    ]

parse_uint-IsStart : (s : Text) → IsStart s → parse_uint s ≡ parse_digits 0 s
unfolding parse_uint IsStart
parse_uint-IsStart s (c, t, e, _) = ap parse_uint e ∙ ap (parse_digits 0) (sym e)

parse_uint-zeros : (k n : ℕ) → n < u64_mod → parse_uint (zeros k ++ format_uint n) ≡ some n
parse_uint-zeros k n h =
    parse_uint-IsStart (zeros k ++ format_uint n)
      (zeros-IsStart k (format_uint n) (format_uint-IsStart n))
    ∙ parse_digits-zeros k (format_uint n)
    ∙ sym (parse_uint-IsStart (format_uint n) (format_uint-IsStart n))
    ∙ parse-format_uint n h

-- What is printed is not empty.
pub format_sequence_first : (n : ℕ) → (c : ℕ) × (t : Text) × (format_sequence (pos n) ≡ c ∷ t)
unfolding format_sequence IsStart
format_sequence_first n =
    let (c, t, e, _) =
      zeros-IsStart (5 - length (format_uint n)) (format_uint n) (format_uint-IsStart n) in
    (c, t, e)

pub atoi-format_sequence : (n : ℕ) → n < 2 ^ 63 → atoi (format_sequence (pos n)) ≡ some (pos n)
unfolding atoi format_sequence IsStart
atoi-format_sequence n h =
    let k = 5 - length (format_uint n) in
    let (d, u, e, digit) = zeros-IsStart k (format_uint n) (format_uint-IsStart n) in
    let value : parse_uint (d ∷ u) ≡ some n =
      ap parse_uint (sym e) ∙ parse_uint-zeros k n (omega (arith, h)) in
    let minus : (d == b'-') ≡ false = ground (arith, digit) in
    let plus : (d == b'+') ≡ false = ground (arith, digit) in
    ap atoi e ∙ rw (minus, plus, value) (ground (arith, h))

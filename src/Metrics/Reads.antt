-- ===== src/Metrics/Reads.antt =====
-- internal/metrics/store.go: what is written of one field is read back, whatever stands behind it.
use cmdshape.Base.{
  ℕ, ◌-◌, ◌^◌, ◌<◌, min, Bool, true, false, [], ◌∷◌, ◌++◌, some, Text, ℤ, pos, negsuc, length,
  length-append, drop, take-length, ◌≡◌, refl, sym, ◌∙◌, arith, ltb, append_assoc,
}
use cmdshape.Metrics.{clamp}
use cmdshape.Metrics.Bytes.{put_be, get_be, length-put_be, get_be-put_be}
use cmdshape.Metrics.Record.{
  put_non_negative, put_int, put_length, put_encoded_string, put_boolean, take_bytes,
  get_bounded_int64, get_signed_int, read_string, read_non_negative, read_signed, read_boolean,
}

-- A number of type `int64`.
abbrev pub IsInt64 : ℤ → Type 0
IsInt64 (pos n) = n < 2 ^ 63
IsInt64 (negsuc n) = n < 2 ^ 63

-- A text whose length four bytes hold.
abbrev pub IsShort : Text → Type 0
IsShort t = length t < 2 ^ 32

drop-length : (a s : Text) → drop (length a) (a ++ s) ≡ s
drop-length [] s = refl
drop-length (c ∷ a) s = drop-length a s

take_bytes-append : (n : ℕ) (a s : Text) → length a ≡ n → take_bytes n (a ++ s) ≡ some (a, s)
unfolding take_bytes
take_bytes-append n a s e =
    let enough : ltb (length (a ++ s)) (length a) ≡ false = ground (arith, length-append a s) in
    rw (sym e, enough, take-length a s, drop-length a s) refl

pub read_non_negative-put :
    (v : ℤ) (s : Text) → IsInt64 v → read_non_negative (put_non_negative v ++ s) ≡ some (clamp v, s)
unfolding read_non_negative put_non_negative get_bounded_int64 clamp
read_non_negative-put (pos n) s h =
    let value : min (get_be 0 (put_be 8 n)) (2 ^ 63 - 1) ≡ n =
      omega (arith, get_be-put_be 8 n (omega (arith, h)), h) in
    rw (take_bytes-append 8 (put_be 8 n) s (length-put_be 8 n), value) refl
read_non_negative-put (negsuc n) s h =
    let value : min (get_be 0 (put_be 8 0)) (2 ^ 63 - 1) ≡ 0 =
      omega (arith, get_be-put_be 8 0 (omega arith)) in
    rw (take_bytes-append 8 (put_be 8 0) s (length-put_be 8 0), value) refl

pub read_signed-put : (v : ℤ) (s : Text) → IsInt64 v → read_signed (put_int v ++ s) ≡ some (v, s)
unfolding read_signed put_int get_signed_int
read_signed-put (pos n) s h =
    let value = get_be-put_be 8 n (omega (arith, h)) in
    let low : ltb n (2 ^ 63) ≡ true = ground (arith, h) in
    rw (take_bytes-append 8 (put_be 8 n) s (length-put_be 8 n), value, low) refl
read_signed-put (negsuc n) s h =
    let word = 2 ^ 64 - 1 - n in
    let value = get_be-put_be 8 word (omega (arith, h)) in
    let high : ltb word (2 ^ 63) ≡ false = ground (arith, h) in
    let back : 2 ^ 64 - 1 - word ≡ n = omega (arith, h) in
    rw (take_bytes-append 8 (put_be 8 word) s (length-put_be 8 word), value, high, back) refl

pub read_string-put :
    (t s : Text) → IsShort t → read_string (put_encoded_string t ++ s) ≡ some (t, s)
unfolding read_string put_encoded_string put_length
read_string-put t s h =
    let size = min (length t) (2 ^ 32 - 1) in
    let same : size ≡ length t = omega (arith, h) in
    let value : get_be 0 (put_be 4 size) ≡ length t = get_be-put_be 4 size (omega arith) ∙ same in
    rw
      (
        append_assoc (put_be 4 size) t s,
        take_bytes-append 4 (put_be 4 size) (t ++ s) (length-put_be 4 size),
        value,
      )
      (take_bytes-append (length t) t s refl)

pub read_boolean-put : (b : Bool) (s : Text) → read_boolean (put_boolean b ++ s) ≡ some (b, s)
unfolding read_boolean put_boolean
read_boolean-put true s = rw (take_bytes-append 1 (1 ∷ []) s refl) refl
read_boolean-put false s = rw (take_bytes-append 1 (0 ∷ []) s refl) refl

-- ===== src/Metrics/Keys.antt =====
-- internal/metrics/store.go: the order of the keys of a bucket is the order of time.
use cmdshape.Base.{
  ℕ, zero, suc, ◌/◌, ◌^◌, ◌<◌, ◌&&◌, ◌||◌, [], ◌∷◌, ◌++◌, Text, ℤ, pos, negsuc, length,
  length-append, take, take-length, text_eq, text_less, ltb, ◌==◌, ◌≡◌, refl, sym, ap, ◌∙◌, arith,
}
use cmdshape.Metrics.Bytes.{put_be, byte_range, length-put_be, get_be-put_be}
use cmdshape.Metrics.Record.{put_non_negative, encode_run_key, get_bounded_int64}
use cmdshape.Metrics.Reads.{IsInt64}

text_eq-append :
    (a c x y : Text)
    → length a ≡ length c
    → text_eq (a ++ x) (c ++ y) ≡ (text_eq a c && text_eq x y)
text_eq-append [] [] x y e = refl
text_eq-append [] (d ∷ c) x y e = absurd (omega (arith, e))
text_eq-append (b ∷ a) [] x y e = absurd (omega (arith, e))
text_eq-append (b ∷ a) (d ∷ c) x y e = ground (arith, text_eq-append a c x y (omega (arith, e)))

pub text_less-append :
    (a c x y : Text)
    → length a ≡ length c
    → text_less (a ++ x) (c ++ y) ≡ (text_less a c || (text_eq a c && text_less x y))
text_less-append [] [] x y e = refl
text_less-append [] (d ∷ c) x y e = absurd (omega (arith, e))
text_less-append (b ∷ a) [] x y e = absurd (omega (arith, e))
text_less-append (b ∷ a) (d ∷ c) x y e = ground (arith, text_less-append a c x y (omega (arith, e)))

same_length : (k v w : ℕ) → length (put_be k v) ≡ length (put_be k w)
same_length k v w = length-put_be k v ∙ sym (length-put_be k w)

text_eq-put_be :
    (k v w : ℕ) → v < byte_range k → w < byte_range k → text_eq (put_be k v) (put_be k w) ≡ (v == w)
text_eq-put_be zero v w h h' = ground (arith, h, h')
text_eq-put_be (suc k) v w h h' =
    let shifted = text_eq-put_be k (v / 256) (w / 256) (omega (arith, h)) (omega (arith, h')) in
    let same = same_length k (v / 256) (w / 256) in
    text_eq-append (put_be k (v / 256)) (put_be k (w / 256)) _ _ same ∙ rw shifted (ground arith)

text_less-put_be :
    (k v w : ℕ)
    → v < byte_range k
    → w < byte_range k
    → text_less (put_be k v) (put_be k w) ≡ ltb v w
text_less-put_be zero v w h h' = ground (arith, h, h')
text_less-put_be (suc k) v w h h' =
    let shifted = text_less-put_be k (v / 256) (w / 256) (omega (arith, h)) (omega (arith, h')) in
    let equal = text_eq-put_be k (v / 256) (w / 256) (omega (arith, h)) (omega (arith, h')) in
    let same = same_length k (v / 256) (w / 256) in
    text_less-append (put_be k (v / 256)) (put_be k (w / 256)) _ _ same
    ∙ rw (shifted, equal) (ground arith)

-- The time that a key holds.
abbrev pub seconds : ℤ → ℕ
seconds (pos n) = n
seconds (negsuc n) = 0

put_non_negative-seconds : (t : ℤ) → put_non_negative t ≡ put_be 8 (seconds t)
unfolding put_non_negative
put_non_negative-seconds (pos n) = refl
put_non_negative-seconds (negsuc n) = refl

seconds-IsInt64 : (t : ℤ) → IsInt64 t → seconds t < 2 ^ 63
seconds-IsInt64 (pos n) h = h
seconds-IsInt64 (negsuc n) h = omega arith

-- Keys are in the order of their times, those before 1970 at its start; and for the same time in the
-- order of the sequence.
pub encode_run_key_order :
    (t t' : ℤ) (n n' : ℕ)
    → IsInt64 t
    → IsInt64 t'
    → n < 2 ^ 64
    → n' < 2 ^ 64
    → text_less (encode_run_key t n) (encode_run_key t' n')
      ≡ (ltb (seconds t) (seconds t') || (seconds t == seconds t' && ltb n n'))
unfolding encode_run_key
encode_run_key_order t t' n n' h h' k k' =
    let low = seconds-IsInt64 t h in
    let low' = seconds-IsInt64 t' h' in
    let same = same_length 8 (seconds t) (seconds t') in
    rw (put_non_negative-seconds t, put_non_negative-seconds t')
      (text_less-append (put_be 8 (seconds t)) (put_be 8 (seconds t')) (put_be 8 n) (put_be 8 n')
          same
        ∙ rw
            (
              text_less-put_be 8 (seconds t) (seconds t') (omega (arith, low))
                  (omega (arith, low')),
              text_eq-put_be 8 (seconds t) (seconds t') (omega (arith, low)) (omega (arith, low')),
              text_less-put_be 8 n n' k k',
            )
            refl)

-- The time is read from the first eight bytes.
pub encode_run_key-time :
    (t : ℤ) (n : ℕ)
    → IsInt64 t
    → (take 8 (encode_run_key t n) ≡ put_be 8 (seconds t))
      × (get_bounded_int64 (put_be 8 (seconds t)) ≡ pos (seconds t))
unfolding encode_run_key get_bounded_int64
encode_run_key-time t n h =
    let size = length-put_be 8 (seconds t) in
    let low = seconds-IsInt64 t h in
    let value = get_be-put_be 8 (seconds t) (omega (arith, low)) in
    (
      rw (put_non_negative-seconds t) (
          ap (λ m. take m (put_be 8 (seconds t) ++ put_be 8 n)) (sym size)
          ∙ take-length (put_be 8 (seconds t)) (put_be 8 n)),
      ap pos (omega (arith, value, low)),
    )

pub length-encode_run_key : (t : ℤ) (n : ℕ) → length (encode_run_key t n) ≡ 16
unfolding encode_run_key
length-encode_run_key t n =
    ap (λ (s : Text). length (s ++ put_be 8 n)) (put_non_negative-seconds t)
    ∙ omega (
      arith,
      length-append (put_be 8 (seconds t)) (put_be 8 n),
      length-put_be 8 (seconds t),
      length-put_be 8 n,
    )

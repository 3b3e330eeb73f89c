-- ===== src/Replay/Payload.antt =====
-- A payload is written on one line, and what is written decodes to it.
use cmdshape.Base.{
  true, false, ◌||◌, [], ◌∷◌, ◌++◌, none, some, Text, length, length-append, select, drop,
  drop_last, drop_last-snoc, has_prefix, has_suffix, has_suffix_lem, cut, ◌==◌, if◌then◌else◌, ◌≡◌,
  refl, sym, ap, ◌∙◌, inl, inr, Bool-cases, arith, All, All-append, All-map, append_assoc,
  select-append, ==_iff,
}
use mathlib.Core.Option
use mathlib.Core.List.{reverse-append}
use cmdshape.Replay.Base64.{
  encode_base64, decode_base64, IsBytes, decode_base64-encode_base64, encode_base64_plain,
}
use cmdshape.Replay.{
  encoded_payload_prefix, count_breaks, replay_payload_needs_encoding, write_payload, cut_prefix,
  decode_replay_payload, split_line,
}

abbrev pub IsInLine : Text → Type 0
IsInLine s = All (λ c. (c == 10) ≡ false) s

pub cut-append :
    (a s : Text) → All (λ c. (c == b'|') ≡ false) a → cut b'|' (a ++ b'|' ∷ s) ≡ some (a, s)
cut-append [] s h = refl
cut-append (c ∷ a) s (first, rest) =
    rw first (ap (Option.map (λ (x, y). (c ∷ x, y))) (cut-append a s rest))

pub split_line-append :
    (a rest : Text) → IsInLine a → split_line (a ++ 10 ∷ rest) ≡ (a ++ 10 ∷ [], rest)
unfolding split_line
split_line-append [] rest h = refl
split_line-append (c ∷ a) rest (first, more) = rw (first, split_line-append a rest more) refl

has_prefix-append : (p s : Text) → has_prefix (p ++ s) p ≡ true
has_prefix-append [] [] = refl
has_prefix-append [] (c ∷ s) = refl
has_prefix-append (c ∷ p) s = ground (arith, has_prefix-append p s)

drop-prefix : (p s : Text) → drop (length p) (p ++ s) ≡ s
drop-prefix [] s = refl
drop-prefix (c ∷ p) s = drop-prefix p s

cut_prefix-append : (p s : Text) → cut_prefix p (p ++ s) ≡ some s
unfolding cut_prefix
cut_prefix-append p s = rw (has_prefix-append p s, drop-prefix p s) refl

cut_prefix-none : (p s : Text) → has_prefix s p ≡ false → cut_prefix p s ≡ none
unfolding cut_prefix
cut_prefix-none p s h = rw h refl

has_suffix-break : (s : Text) → has_suffix (s ++ 10 ∷ []) (10 ∷ []) ≡ true
has_suffix-break s = rw (reverse-append s (10 ∷ [])) refl

no_breaks : (s : Text) → count_breaks s ≡ 0 → IsInLine s
no_breaks [] h = tt
no_breaks (c ∷ s) h = elim (Bool-cases (c == 10)) [
  | inl e ↦ absurd (omega (arith, (rw e at h)))
  | inr e ↦ (e, no_breaks s (rw e at h))
]

decode-encoded :
    (written enc : Text)
    → cut_prefix encoded_payload_prefix written ≡ some enc
    → decode_replay_payload written
      ≡ decode_base64 (if has_suffix enc (10 ∷ []) then drop_last enc else enc)
unfolding decode_replay_payload
decode-encoded written enc e = rw (e, decode_replay_payload) refl

decode-plain :
    (written : Text)
    → cut_prefix encoded_payload_prefix written ≡ none
    → decode_replay_payload written ≡ some written
unfolding decode_replay_payload
decode-plain written e = rw (e, decode_replay_payload) refl

-- A payload is written on one line, and what is written decodes to it.
abbrev pub IsPayload : Text → Text → Type 0
IsPayload line written =
    ((a : Text) × (written ≡ a ++ 10 ∷ []) × IsInLine a)
    × (decode_replay_payload written ≡ some line)

encoded-IsPayload :
    (line : Text)
    → IsBytes line
    → IsPayload line (encoded_payload_prefix ++ (encode_base64 line ++ 10 ∷ []))
encoded-IsPayload line h =
    let b = encode_base64 line in
    let plain : IsInLine b =
      All-map (λ c. (c == 10 || c == 13) ≡ false) (λ c. (c == 10) ≡ false)
        (λ c e. ground (arith, e)) b (encode_base64_plain line h) in
    (
      (
        encoded_payload_prefix ++ b,
        sym (append_assoc encoded_payload_prefix b (10 ∷ [])),
        All-append (λ c. (c == 10) ≡ false) encoded_payload_prefix b
            (no_breaks encoded_payload_prefix refl) plain,
      ),
      decode-encoded _ (b ++ 10 ∷ []) (cut_prefix-append encoded_payload_prefix (b ++ 10 ∷ []))
          ∙ rw (has_suffix-break b, drop_last-snoc b 10) (decode_base64-encode_base64 line h),
    )

plain-IsPayload : (line : Text) → replay_payload_needs_encoding line ≡ false → IsPayload line line
unfolding replay_payload_needs_encoding
plain-IsPayload line h = elim (Bool-cases (has_suffix line (10 ∷ []))) [
  | inr no_break ↦ absurd (let bad = rw no_break at h in cc)
  | inl break ↦ elim (Bool-cases (count_breaks line == 1)) [
    | inr other ↦ absurd (let bad = rw (break, other) at h in cc)
    | inl one ↦
        let (front, e) = has_suffix_lem line (10 ∷ []) break in
        let counted = ap length (select-append (λ c. c == 10) front (10 ∷ [])) in
        let size = length-append (select (λ c. c == 10) front) (10 ∷ []) in
        let total : count_breaks line ≡ 1 = (==_iff (count_breaks line) 1).0 one in
        let same = ap count_breaks e in
        let before : count_breaks front ≡ 0 = omega (arith, counted, size, total, same) in
        let unprefixed : has_prefix line encoded_payload_prefix ≡ false = rw (break, one) at h in
        (
          (front, e, no_breaks front before),
          decode-plain line (cut_prefix-none encoded_payload_prefix line unprefixed),
        )
  ]
]

pub write_payload-IsPayload : (line : Text) → IsBytes line → IsPayload line (write_payload line)
unfolding write_payload
write_payload-IsPayload line h = elim (Bool-cases (replay_payload_needs_encoding line)) [
  | inl e ↦ rw e (encoded-IsPayload line h)
  | inr e ↦ rw e (plain-IsPayload line e)
]

-- ===== src/Cli/Redactions.antt =====
-- internal/cli/parse.go: `parseConfidentialRedactions`, and what it returns.
use cmdshape.Base.{
  text_eq_refl, map, text_eq, Bool, true, false, ◌||◌, List, [], ◌∷◌, ◌++◌, Text, text_eq_iff,
  contains_text, is_empty, trim_space, split, if◌then◌else◌, ◌≡◌, refl, arith, Bool-cases, inl, inr,
}

-- The loop over the parts; the tokens seen are those put out.
unfoldable pub collect_tokens : List Text → List Text → List Text
collect_tokens [] out = out
collect_tokens (part ∷ parts) out =
    let token = trim_space part in
    collect_tokens parts
      (if is_empty token || contains_text out token then out else out ++ token ∷ [])

unfoldable pub parse_confidential_redactions : Text → List Text
parse_confidential_redactions raw =
    if is_empty (trim_space raw) then [] else collect_tokens (split b',' raw) []

-- No text stands twice, and none is empty.
abbrev pub IsTokens : List Text → Type 0
IsTokens [] = Unit
IsTokens (t ∷ ts) = (is_empty t ≡ false) × (contains_text ts t ≡ false) × IsTokens ts

contains_text-append :
    (xs ys : List Text) (t : Text)
    → contains_text (xs ++ ys) t ≡ (contains_text xs t || contains_text ys t)
contains_text-append [] ys t = refl
contains_text-append (x ∷ xs) ys t = ground (arith, contains_text-append xs ys t)

IsTokens-snoc :
    (ts : List Text) (t : Text)
    → IsTokens ts
    → is_empty t ≡ false
    → contains_text ts t ≡ false
    → IsTokens (ts ++ t ∷ [])
IsTokens-snoc [] t i h k = (h, refl, tt)
IsTokens-snoc (x ∷ xs) t i h k = (
  i.0,
  ground (arith, contains_text-append xs (t ∷ []) x, text_eq_iff t x, text_eq_iff x t),
  IsTokens-snoc xs t i.2 h (ground arith),
)

collect_tokens-IsTokens :
    (parts out : List Text) → IsTokens out → IsTokens (collect_tokens parts out)
unfolding collect_tokens
collect_tokens-IsTokens [] out i = i
collect_tokens-IsTokens (part ∷ parts) out i =
    elim (Bool-cases (is_empty (trim_space part) || contains_text out (trim_space part))) [
      | inl skip ↦ rw skip (collect_tokens-IsTokens parts out i)
      | inr fresh ↦ rw fresh (
          collect_tokens-IsTokens parts (out ++ trim_space part ∷ [])
            (IsTokens-snoc out (trim_space part) i (ground arith) (ground arith)))
    ]

-- The redactions are never empty texts, and none stands twice.
pub parse_confidential_redactions-IsTokens :
    (raw : Text) → IsTokens (parse_confidential_redactions raw)
unfolding parse_confidential_redactions
parse_confidential_redactions-IsTokens raw = elim (Bool-cases (is_empty (trim_space raw))) [
  | inl blank ↦ rw blank tt
  | inr parts ↦ rw parts (collect_tokens-IsTokens (split b',' raw) [] tt)
]

collect_tokens-kept :
    (parts out : List Text) (t : Text)
    → contains_text out t ≡ true
    → contains_text (collect_tokens parts out) t ≡ true
unfolding collect_tokens
collect_tokens-kept [] out t h = h
collect_tokens-kept (part ∷ parts) out t h =
    let token = trim_space part in
    let more = contains_text-append out (token ∷ []) t in
    collect_tokens-kept parts
      (if is_empty token || contains_text out token then out else out ++ token ∷ []) t
      (ground arith)

contains_text-snoc : (out : List Text) (t : Text) → contains_text (out ++ t ∷ []) t ≡ true
contains_text-snoc [] t = ground (arith, text_eq_refl t)
contains_text-snoc (x ∷ xs) t = ground (arith, contains_text-snoc xs t)

collect_tokens_complete :
    (parts out : List Text) (t : Text)
    → contains_text (map trim_space parts) t ≡ true
    → is_empty t ≡ false
    → contains_text (collect_tokens parts out) t ≡ true
unfolding collect_tokens
collect_tokens_complete [] out t h solid = absurd (cc)
collect_tokens_complete (part ∷ parts) out t h solid =
    elim (Bool-cases (text_eq (trim_space part) t)) [
      | inl here ↦
          let same = (text_eq_iff (trim_space part) t).0 here in
          collect_tokens-kept parts _ t (taken (trim_space part) same)
      | inr further ↦ collect_tokens_complete parts _ t (ground arith) solid
    ]
  where
    taken :
        (token : Text)
        → token ≡ t
        → contains_text
            (if is_empty token || contains_text out token then out else out ++ token ∷ [])
            t
          ≡ true
    taken token same = rw same (kept (contains_text out t) refl)
      where
        kept :
            (seen : Bool)
            → contains_text out t ≡ seen
            → contains_text (if is_empty t || seen then out else out ++ t ∷ []) t ≡ true
        kept true e = rw solid e
        kept false e = rw solid (contains_text-snoc out t)

-- Every part between the commas of a text that is not blank is among the redactions, trimmed, unless
-- it is blank.
pub parse_confidential_redactions_lem :
    (raw t : Text)
    → is_empty (trim_space raw) ≡ false
    → contains_text (map trim_space (split b',' raw)) t ≡ true
    → is_empty t ≡ false
    → contains_text (parse_confidential_redactions raw) t ≡ true
unfolding parse_confidential_redactions
parse_confidential_redactions_lem raw t solid part nonempty =
    rw solid (collect_tokens_complete (split b',' raw) [] t part nonempty)

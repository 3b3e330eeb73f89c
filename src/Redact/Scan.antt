-- ===== src/Redact/Scan.antt =====
-- Replacing in a text of which only the front is known yet.
use cmdshape.Base.{
  ℕ, zero, suc, ◌+◌, ◌-◌, ◌≤◌, true, false, [], ◌∷◌, ◌++◌, none, some, ◌≡◌, refl, ap, ◌∙◌, inl, inr,
  Text, length, take, drop, has_prefix, replace_all, replace_from, Bool-cases, Option-cases, arith,
}
use cmdshape.Redact.{index_of}

-- A prefix is found in the front alone if the front is as long.
has_prefix-front : (s t p : Text) → length p ≤ length s → has_prefix (s ++ t) p ≡ has_prefix s p
has_prefix-front s t [] h = refl
has_prefix-front [] t (d ∷ p) h = absurd (omega (arith, h))
has_prefix-front (c ∷ s) t (d ∷ p) h = ground (arith, has_prefix-front s t p)

has_prefix-length : (s p : Text) → has_prefix s p ≡ true → length p ≤ length s
has_prefix-length s [] h = omega arith
has_prefix-length [] (d ∷ p) h = absurd (cc)
has_prefix-length (c ∷ s) (d ∷ p) h = ground (arith, has_prefix-length s p)

-- The counter of `replace_from` drops the rest of what has been replaced.
replace_from-drop :
    (k : ℕ) (old new s : Text) → replace_from k old new s ≡ replace_all (drop k s) old new
replace_from-drop zero old new s = refl
replace_from-drop (suc k) old new [] = refl
replace_from-drop (suc k) old new (c ∷ s) = replace_from-drop k old new s

drop-front : (k : ℕ) (s t : Text) → k ≤ length s → drop k (s ++ t) ≡ drop k s ++ t
drop-front zero s t h = refl
drop-front (suc k) [] t h = absurd (omega (arith, h))
drop-front (suc k) (c ∷ s) t h = drop-front k s t (omega (arith, h))

-- Where the old text is found, it is that far from the end.
pub index_of-le : (s old : Text) (i : ℕ) → index_of s old ≡ some i → i + length old ≤ length s
unfolding index_of
index_of-le [] [] i h = ground arith
index_of-le [] (d ∷ old) i h = absurd (cc)
index_of-le (c ∷ s) old i h = elim (Bool-cases (has_prefix (c ∷ s) old)) [
  | inl here ↦
      let at : i ≡ 0 = ground arith in omega (arith, at, has_prefix-length (c ∷ s) old here)
  | inr on ↦ elim (Option-cases (index_of s old)) [
    | inl e ↦ absurd (cc)
    | inr (j, e) ↦ let at : i ≡ suc j = ground arith in omega (arith, at, index_of-le s old j e)
  ]
]

replace_all-hit :
    (d : ℕ) (old' : Text) (c : ℕ) (s new : Text)
    → has_prefix (c ∷ s) (d ∷ old') ≡ true
    → replace_all (c ∷ s) (d ∷ old') new ≡ new ++ replace_all (drop (length old') s) (d ∷ old') new
replace_all-hit d old' c s new h =
    let rest = replace_from-drop (length old') (d ∷ old') new s in
    let skip : suc (length old') - 1 ≡ length old' = omega arith in rw h (rw (skip, rest))

replace_all-miss :
    (d : ℕ) (old' : Text) (c : ℕ) (s new : Text)
    → has_prefix (c ∷ s) (d ∷ old') ≡ false
    → replace_all (c ∷ s) (d ∷ old') new ≡ c ∷ replace_all s (d ∷ old') new
replace_all-miss d old' c s new h = rw h

index_of-none :
    (d : ℕ) (old' : Text) (c : ℕ) (s : Text)
    → index_of (c ∷ s) (d ∷ old') ≡ none
    → (has_prefix (c ∷ s) (d ∷ old') ≡ false) × (index_of s (d ∷ old') ≡ none)
unfolding index_of
index_of-none d old' c s h = elim (Bool-cases (has_prefix (c ∷ s) (d ∷ old'))) [
  | inl here ↦ absurd (cc)
  | inr on ↦ elim (Option-cases (index_of s (d ∷ old'))) [
    | inl e ↦ (on, e)
    | inr (j, e) ↦ absurd (cc)
  ]
]

-- Up to the first occurrence a text stays, the occurrence is replaced, and what stands behind, known
-- or not, is replaced on its own.
pub replace_all-some :
    (d : ℕ) (old' s rest new : Text) (i : ℕ)
    → index_of s (d ∷ old') ≡ some i
    → replace_all (s ++ rest) (d ∷ old') new
      ≡ take i s ++ (new ++ replace_all (drop (i + length (d ∷ old')) s ++ rest) (d ∷ old') new)
unfolding index_of
replace_all-some d old' [] rest new i h = absurd (cc)
replace_all-some d old' (c ∷ s) rest new i h = elim (Bool-cases (has_prefix (c ∷ s) (d ∷ old'))) [
  | inl here ↦
      let at : i ≡ 0 = ground arith in
      let long = has_prefix-length (c ∷ s) (d ∷ old') here in
      let whole = has_prefix-front (c ∷ s) rest (d ∷ old') long ∙ here in
      let sum : 0 + suc (length old') ≡ suc (length old') = omega arith in
      let behind = drop-front (length old') s rest (omega (arith, long)) in
      rw (at, sum)
        (replace_all-hit d old' c (s ++ rest) new whole
          ∙ ap (λ (t : Text). new ++ replace_all t (d ∷ old') new) behind)
  | inr on ↦ elim (Option-cases (index_of s (d ∷ old'))) [
    | inl e ↦ absurd (cc)
    | inr (j, e) ↦
        let at : i ≡ suc j = ground arith in
        let room = index_of-le s (d ∷ old') j e in
        let whole = has_prefix-front (c ∷ s) rest (d ∷ old') (omega (arith, room)) ∙ on in
        let sum : suc j + suc (length old') ≡ suc (j + suc (length old')) = omega arith in
        rw (at, sum)
          (replace_all-miss d old' c (s ++ rest) new whole
            ∙ ap (λ (t : Text). c ∷ t) (replace_all-some d old' s rest new j e))
  ]
]

-- A text in which the old one does not occur stays.
pub replace_all-none :
    (d : ℕ) (old' s new : Text) → index_of s (d ∷ old') ≡ none → replace_all s (d ∷ old') new ≡ s
replace_all-none d old' [] new h = refl
replace_all-none d old' (c ∷ s) new h =
    let (on, none_behind) = index_of-none d old' c s h in
    replace_all-miss d old' c s new on
    ∙ ap (λ (t : Text). c ∷ t) (replace_all-none d old' s new none_behind)

-- Without an occurrence, all that is further from the end than the old text is long stays,
-- whatever comes behind.
pub replace_all-held :
    (d : ℕ) (old' s rest new : Text) (n : ℕ)
    → index_of s (d ∷ old') ≡ none
    → n ≡ length s - length old'
    → replace_all (s ++ rest) (d ∷ old') new
      ≡ take n s ++ replace_all (drop n s ++ rest) (d ∷ old') new
replace_all-held d old' s rest new zero h e = refl
replace_all-held d old' [] rest new (suc n) h e = absurd (omega (arith, e))
replace_all-held d old' (c ∷ s) rest new (suc n) h e =
    let (on, none_behind) = index_of-none d old' c s h in
    let whole = has_prefix-front (c ∷ s) rest (d ∷ old') (omega (arith, e)) ∙ on in
    replace_all-miss d old' c (s ++ rest) new whole
    ∙ ap (λ (t : Text). c ∷ t) (replace_all-held d old' s rest new n none_behind (omega (arith, e)))

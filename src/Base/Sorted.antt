-- ===== src/Base/Sorted.antt =====
-- Sorting by insertion sorts, and selecting before or after it makes no difference.
use mathlib.Core.Path.{◌≡◌, refl, sym, ap, ◌∙◌}
use mathlib.Core.Logic.{◌⊎◌, inl, inr}
use mathlib.Core.Bool.{Bool, true}
use mathlib.Core.List.{List, [], ◌∷◌}
use cmdshape.Base.Tests.{if◌then◌else◌, Bool-cases}
use cmdshape.Base.Lists.{select, All}
use cmdshape.Base.Sort.{
  insert_sorted, sort_by, IsStrict, AllAbove, IsAscending, insert_sorted-above, select-AllAbove,
}

module _ {ℓ} {A : Type ℓ} (less : A → A → Bool) where
  pub All-insert_sorted {κ} :
      (P : A → Type κ) (a : A) (s : List A) → P a → All P s → All P (insert_sorted less a s)
  All-insert_sorted P a [] h rest = (h, tt)
  All-insert_sorted P a (b ∷ s) h (first, rest) = elim (Bool-cases (less a b)) [
    | inl e ↦ rw (e, All) (h, (first, rest))
    | inr e ↦ rw (e, All) (first, All-insert_sorted P a s h rest)
  ]

  pub All-sort_by {κ} : (P : A → Type κ) (s : List A) → All P s → All P (sort_by less s)
  All-sort_by P [] h = tt
  All-sort_by P (a ∷ s) (first, rest) =
      All-insert_sorted P a (sort_by less s) first (All-sort_by P s rest)

  pub All-select {κ} : (P : A → Type κ) (p : A → Bool) (s : List A) → All P s → All P (select p s)
  All-select P p [] h = tt
  All-select P p (a ∷ s) (first, rest) = elim (Bool-cases (p a)) [
    | inl e ↦ rw (e, All) (first, All-select P p s rest)
    | inr e ↦ rw e (All-select P p s rest)
  ]

  -- Any two elements are ordered.
  abbrev pub IsTotal : List A → Type 0
  IsTotal [] = Unit
  IsTotal (a ∷ s) = All (λ x. (less a x ≡ true) ⊎ (less x a ≡ true)) s × IsTotal s

  AllAbove-insert_sorted :
      (b a : A) (s : List A)
      → less b a ≡ true
      → AllAbove less b s
      → AllAbove less b (insert_sorted less a s)
  AllAbove-insert_sorted b a [] h above = (h, tt)
  AllAbove-insert_sorted b a (c ∷ s) h (first, rest) = elim (Bool-cases (less a c)) [
    | inl e ↦ rw (e, AllAbove) (h, (first, rest))
    | inr e ↦ rw (e, AllAbove) (first, AllAbove-insert_sorted b a s h rest)
  ]

module _ {ℓ} {A : Type ℓ} (less : A → A → Bool) (strict : IsStrict less) where
  AllAbove-trans : (a b : A) (s : List A) → less a b ≡ true → AllAbove less b s → AllAbove less a s
  AllAbove-trans a b [] h above = tt
  AllAbove-trans a b (c ∷ s) h (first, rest) =
      (strict.trans a b c h first, AllAbove-trans a b s h rest)

  insert_sorted-IsAscending :
      (a : A) (s : List A)
      → All (λ x. (less a x ≡ true) ⊎ (less x a ≡ true)) s
      → IsAscending less s
      → IsAscending less (insert_sorted less a s)
  insert_sorted-IsAscending a [] total h = (tt, tt)
  insert_sorted-IsAscending a (b ∷ s) (ordered, total) (above, h) = elim (Bool-cases (less a b)) [
    | inl e ↦ rw (e, IsAscending) ((e, AllAbove-trans a b s e above), (above, h))
    | inr e ↦
        let below : less b a ≡ true = elim ordered [ inl bad ↦ absurd (cc) | inr ba ↦ ba ] in
        rw (e, IsAscending)
          (AllAbove-insert_sorted less b a s below above, insert_sorted-IsAscending a s total h)
  ]

  pub sort_by-IsAscending : (s : List A) → IsTotal less s → IsAscending less (sort_by less s)
  sort_by-IsAscending [] h = tt
  sort_by-IsAscending (a ∷ s) (first, rest) =
      insert_sorted-IsAscending a (sort_by less s) (All-sort_by less _ s first)
        (sort_by-IsAscending s rest)

  select-insert_sorted :
      (p : A → Bool) (a : A) (s : List A)
      → IsAscending less s
      → select p (insert_sorted less a s)
        ≡ (if p a then insert_sorted less a (select p s) else select p s)
  select-insert_sorted p a [] h = refl
  select-insert_sorted p a (b ∷ s) (above, h) = elim (Bool-cases (less a b)) [
    | inl e ↦
        let front = select-AllAbove less p a (b ∷ s) (e, AllAbove-trans a b s e above) in
        rw e (
          ap (λ (t : List A). if p a then t else select p (b ∷ s))
            (sym (insert_sorted-above less a (select p (b ∷ s)) front)))
    | inr e ↦
        let later = select-insert_sorted p a s h in
        elim (Bool-cases (p b)) [
          | inl kept ↦ elim (Bool-cases (p a)) [
            | inl pa ↦ rw (e, kept, pa, e) (ap (λ (t : List A). b ∷ t) (later ∙ rw pa refl))
            | inr pa ↦ rw (e, kept, pa) (ap (λ (t : List A). b ∷ t) (later ∙ rw pa refl))
          ]
          | inr gone ↦ rw (e, gone) later
        ]
  ]

  pub select-sort_by :
      (p : A → Bool) (s : List A)
      → IsTotal less s
      → select p (sort_by less s) ≡ sort_by less (select p s)
  select-sort_by p [] h = refl
  select-sort_by p (a ∷ s) (first, rest) =
      let inner = select-sort_by p s rest in
      select-insert_sorted p a (sort_by less s) (sort_by-IsAscending s rest)
      ∙ (elim (Bool-cases (p a)) [
        | inl e ↦ rw e (ap (insert_sorted less a) inner)
        | inr e ↦ rw e inner
      ])

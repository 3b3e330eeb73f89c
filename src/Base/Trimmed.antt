-- ===== src/Base/Trimmed.antt =====
-- Trimming what has been trimmed changes nothing.
use cmdshape.Base.Tests.{Bool-cases}
use cmdshape.Base.Strings.{Text}
use cmdshape.Base.Trim.{is_space, trim_space, trim_left}
use Prim.Native.Nat.{ℕ}
use mathlib.Core.Path.{◌≡◌, refl, sym, ap, ◌∙◌, subst}
use mathlib.Core.Logic.{inl, inr}
use mathlib.Core.Bool.{Bool, false}
use mathlib.Core.List.{[], ◌∷◌, ◌++◌, reverse, reverse-reverse, reverse-append}

IsStart : (ℕ → Bool) → Text → Type 0
IsStart p [] = Unit
IsStart p (c ∷ s) = p c ≡ false

trim_left-IsStart : (p : ℕ → Bool) (s : Text) → IsStart p (trim_left p s)
unfolding IsStart
trim_left-IsStart p [] = tt
trim_left-IsStart p (c ∷ s) = elim (Bool-cases (p c)) [
  | inl e ↦ rw e (trim_left-IsStart p s)
  | inr e ↦ rw e e
]

trim_left-same : (p : ℕ → Bool) (s : Text) → IsStart p s → trim_left p s ≡ s
unfolding IsStart
trim_left-same p [] h = refl
trim_left-same p (c ∷ s) h = rw h refl

IsStart-append : (p : ℕ → Bool) (s t : Text) → IsStart p (s ++ t) → IsStart p s
unfolding IsStart
IsStart-append p [] t h = tt
IsStart-append p (c ∷ s) t h = h

trim_left-suffix : (p : ℕ → Bool) (s : Text) → (front : Text) × (s ≡ front ++ trim_left p s)
trim_left-suffix p [] = ([], refl)
trim_left-suffix p (c ∷ s) =
    let (front, e) = trim_left-suffix p s in
    elim (Bool-cases (p c)) [
      | inl space ↦ (c ∷ front, rw space (ap (λ (t : Text). c ∷ t) e))
      | inr other ↦ ([], rw other refl)
    ]

pub trim_space-trim_space : (s : Text) → trim_space (trim_space s) ≡ trim_space s
unfolding trim_space
trim_space-trim_space s =
    let u = trim_left is_space s in
    let kept = trim_left is_space (reverse u) in
    let (front, e) = trim_left-suffix is_space (reverse u) in
    let back : u ≡ reverse kept ++ reverse front =
      sym (reverse-reverse u) ∙ ap reverse e ∙ reverse-append front kept in
    let starts : IsStart is_space (reverse kept) =
      IsStart-append is_space (reverse kept) (reverse front)
        (subst (IsStart is_space) back (trim_left-IsStart is_space s)) in
    let left : trim_left is_space (reverse kept) ≡ reverse kept =
      trim_left-same is_space (reverse kept) starts in
    let right : trim_left is_space (reverse (reverse kept)) ≡ kept =
      ap (λ (t : Text). trim_left is_space t) (reverse-reverse kept)
      ∙ trim_left-same is_space kept (trim_left-IsStart is_space (reverse u)) in
    ap (λ (t : Text). reverse (trim_left is_space (reverse t))) left ∙ ap reverse right

-- ===== src/Base/TextOrder.antt =====
-- The order of texts by bytes, as `strings.Compare`, `cmp.Compare` and `bytes.Compare` have it.
use Prim.Native.Nat.{ℕ, ◌<◌}
use mathlib.Core.Path.{◌≡◌, refl, ap, ◌∙◌}
use mathlib.Core.Logic.{◌≢◌, ◌⊎◌, inl, inr}
use mathlib.Core.Bool.{Bool, true, false, ◌&&◌, ◌||◌}
use mathlib.Core.List.{[], ◌∷◌}
use native.Mathlib.Omega.{arith}
use cmdshape.Base.Tests.{◌==◌, ltb, Bool-cases}
use cmdshape.Base.Strings.{Text}

abbrev pub text_less : Text → Text → Bool
text_less s [] = false
text_less [] (d ∷ t) = true
text_less (c ∷ s) (d ∷ t) = ltb c d || (c == d && text_less s t)

pub text_less_irrefl : (s : Text) → text_less s s ≡ false
text_less_irrefl [] = refl
text_less_irrefl (c ∷ s) = ground (arith, text_less_irrefl s)

pub text_less_trans :
    (s t u : Text) → text_less s t ≡ true → text_less t u ≡ true → text_less s u ≡ true
text_less_trans s t [] h k = absurd (cc)
text_less_trans s [] (e ∷ u) h k = absurd (cc)
text_less_trans [] (d ∷ t) (e ∷ u) h k = refl
text_less_trans (c ∷ s) (d ∷ t) (e ∷ u) h k = ground (arith, h, k, text_less_trans s t u)

compare-cases : (a b : ℕ) → ((a < b) ⊎ (a ≡ b)) ⊎ (b < a)
compare-cases a b = ground arith

pub text_less_total : (s t : Text) → s ≢ t → (text_less s t ≡ true) ⊎ (text_less t s ≡ true)
text_less_total [] [] h = absurd (h refl)
text_less_total [] (d ∷ t) h = inl refl
text_less_total (c ∷ s) [] h = inr refl
text_less_total (c ∷ s) (d ∷ t) h =
    let other : c ≡ d → (text_less s t ≡ true) ⊎ (text_less t s ≡ true) =
      λ e. text_less_total s t (λ same. h (ap (λ x. x ∷ s) e ∙ ap (λ (r : Text). d ∷ r) same)) in
    elim (compare-cases c d) [
      | inl (inl below) ↦ inl (ground (arith, below))
      | inl (inr e) ↦ elim (other e) [
        | inl less ↦ inl (ground (arith, e, less))
        | inr more ↦ inr (ground (arith, e, more))
      ]
      | inr above ↦ inr (ground (arith, above))
    ]

pub text_less_asym : (s t : Text) → text_less s t ≡ true → text_less t s ≡ false
text_less_asym s t h = elim (Bool-cases (text_less t s)) [
  | inl k ↦
      let round : text_less s s ≡ true = text_less_trans s t s h k in
      let never = text_less_irrefl s in absurd (cc)
  | inr k ↦ k
]

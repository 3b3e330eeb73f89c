-- ===== src/Base/IntOrder.antt =====
-- The order of the integers.
use Prim.Native.Nat.{ℕ, ◌<◌}
use mathlib.Core.Path.{◌≡◌, refl, ap}
use mathlib.Core.Logic.{◌⊎◌, inl, inr}
use mathlib.Core.Bool.{true, false}
use native.Mathlib.Omega.{arith}
use cmdshape.Base.Tests.{ℤ, pos, negsuc, int_less}

pub int_less_asym : (a b : ℤ) → int_less a b ≡ true → int_less b a ≡ false
int_less_asym (pos a) (pos b) h = ground (arith, h)
int_less_asym (pos a) (negsuc b) h = absurd (cc)
int_less_asym (negsuc a) (pos b) h = refl
int_less_asym (negsuc a) (negsuc b) h = ground (arith, h)

pub int_less_trans : (a b c : ℤ) → int_less a b ≡ true → int_less b c ≡ true → int_less a c ≡ true
int_less_trans (pos a) (pos b) (pos c) h k = ground (arith, h, k)
int_less_trans (pos a) (pos b) (negsuc c) h k = absurd (cc)
int_less_trans (pos a) (negsuc b) c h k = absurd (cc)
int_less_trans (negsuc a) b (pos c) h k = refl
int_less_trans (negsuc a) (pos b) (negsuc c) h k = absurd (cc)
int_less_trans (negsuc a) (negsuc b) (negsuc c) h k = ground (arith, h, k)

pub int_less_irrefl : (a : ℤ) → int_less a a ≡ false
int_less_irrefl (pos a) = ground arith
int_less_irrefl (negsuc a) = ground arith

number-cases : (a b : ℕ) → ((a < b) ⊎ (a ≡ b)) ⊎ (b < a)
number-cases a b = ground arith

pub int_less-cases : (a b : ℤ) → (int_less a b ≡ true) ⊎ ((a ≡ b) ⊎ (int_less b a ≡ true))
int_less-cases (pos a) (pos b) = elim (number-cases a b) [
  | inl (inl h) ↦ inl (ground (arith, h))
  | inl (inr e) ↦ inr (inl (ap pos e))
  | inr h ↦ inr (inr (ground (arith, h)))
]
int_less-cases (pos a) (negsuc b) = inr (inr refl)
int_less-cases (negsuc a) (pos b) = inl refl
int_less-cases (negsuc a) (negsuc b) = elim (number-cases a b) [
  | inl (inl h) ↦ inr (inr (ground (arith, h)))
  | inl (inr e) ↦ inr (inl (ap negsuc e))
  | inr h ↦ inl (ground (arith, h))
]

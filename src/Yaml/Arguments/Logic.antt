-- ===== src/Yaml/Arguments/Logic.antt =====
-- The tests of arguments as statements: conjunctions, alternatives and lists of them.
use cmdshape.Base.{
  ℕ, ◌==◌, arith, Bool, true, false, ◌&&◌, ◌||◌, List, [], ◌∷◌, Text, any, contains_text, text_eq,
  text_eq_iff, if◌then◌else◌, ◌≡◌, ◌⊎◌, ◌↔◌, refl, inl, inr,
}
use cmdshape.Operations.{is_nil}

pub and_iff :
    {P Q : Type 0} (a b : Bool) → (a ≡ true) ↔ P → (b ≡ true) ↔ Q → ((a && b) ≡ true) ↔ (P × Q)
and_iff true true h k = (λ e. (h.0 refl, k.0 refl), λ both. refl)
and_iff true false h k = (λ e. absurd (cc), λ (p, q). k.1 q)
and_iff false b h k = (λ e. absurd (cc), λ (p, q). h.1 p)

pub or_iff :
    {P Q : Type 0} (a b : Bool) → (a ≡ true) ↔ P → (b ≡ true) ↔ Q → ((a || b) ≡ true) ↔ (P ⊎ Q)
or_iff true b h k = (λ e. inl (h.0 refl), λ one. refl)
or_iff false true h k = (λ e. inr (k.0 refl), λ one. refl)
or_iff {P} {Q} false false h k = (λ e. absurd (cc), none_holds)
  where
    none_holds : P ⊎ Q → false ≡ true
    none_holds (inl p) = h.1 p
    none_holds (inr q) = k.1 q

pub not_iff :
    {P : Type 0} (a : Bool) → (a ≡ true) ↔ P → ((if a then false else true) ≡ true) ↔ (¬ P)
not_iff true h = (λ e. absurd (cc), λ no. absurd (no (h.0 refl)))
not_iff false h = (λ e p. let bad = h.1 p in absurd (cc), λ no. refl)

pub nand_iff :
    {P Q : Type 0} (a b : Bool)
    → (a ≡ true) ↔ P
    → (b ≡ true) ↔ Q
    → (((if a then false else true) || (if b then false else true)) ≡ true) ↔ (¬ (P × Q))
nand_iff true true h k = (λ e. absurd (cc), λ no. absurd (no (h.0 refl, k.0 refl)))
nand_iff true false h k = (λ e (p, q). let bad = k.1 q in absurd (cc), λ no. refl)
nand_iff false b h k = (λ e (p, q). let bad = h.1 p in absurd (cc), λ no. refl)

pub if_iff :
    {P Q : Type 0} (b x y : Bool)
    → (x ≡ true) ↔ P
    → (y ≡ true) ↔ Q
    → ((if b then x else y) ≡ true) ↔ (((b ≡ false) × Q) ⊎ ((b ≡ true) × P))
if_iff {P} {Q} true x y h k = (λ e. inr (refl, h.0 e), at_true)
  where
    at_true : ((true ≡ false) × Q) ⊎ ((true ≡ true) × P) → x ≡ true
    at_true (inl (bad, q)) = absurd (cc)
    at_true (inr (e, p)) = h.1 p
if_iff {P} {Q} false x y h k = (λ e. inl (refl, k.0 e), at_false)
  where
    at_false : ((false ≡ false) × Q) ⊎ ((false ≡ true) × P) → y ≡ true
    at_false (inl (e, q)) = k.1 q
    at_false (inr (bad, p)) = absurd (cc)

pub eq_iff : (c d : ℕ) → ((c == d) ≡ true) ↔ (c ≡ d)
eq_iff c d = ground arith

-- One of the elements is such.
abbrev pub OneOf : {A : Type 0} → (A → Type 0) → List A → Type 0
OneOf P [] = ⊥
OneOf P (x ∷ xs) = P x ⊎ OneOf P xs

pub any_iff :
    {A : Type 0} (P : A → Type 0) (p : A → Bool) (xs : List A)
    → ((x : A) → (p x ≡ true) ↔ P x)
    → (any p xs ≡ true) ↔ OneOf P xs
any_iff P p [] h = (λ e. absurd (cc), λ no. absurd no)
any_iff P p (x ∷ xs) h = or_iff (p x) (any p xs) (h x) (any_iff P p xs h)

abbrev pub IsAmong : List Text → Text → Type 0
IsAmong texts t = OneOf (λ x. x ≡ t) texts

pub contains_text_iff :
    (texts : List Text) (t : Text) → (contains_text texts t ≡ true) ↔ IsAmong texts t
contains_text_iff texts t = any_iff (λ x. x ≡ t) (λ x. text_eq x t) texts (λ x. text_eq_iff x t)

pub is_nil_iff : (xs : List Text) → (is_nil xs ≡ true) ↔ (xs ≡ [])
is_nil_iff [] = (λ e. refl, λ e. refl)
is_nil_iff (x ∷ xs) = (λ e. absurd (cc), λ e. absurd (cc))

-- The first of the arguments, if there is one, is such.
abbrev pub First : (Text → Type 0) → List Text → Type 0
First P [] = ⊥
First P (a ∷ args) = P a

-- ===== src/Base/Maps.antt =====
-- Maps from texts as association lists with one entry for a key: what the loops that group records
-- by a key make of `map[string]T`.
use mathlib.Core.Path.{◌≡◌, refl, sym, ap, ◌∙◌, subst}
use mathlib.Core.Logic.{inl, inr}
use mathlib.Core.Bool.{true, false}
use mathlib.Core.Option.{Option, none, some}
use mathlib.Core.List.{List, [], ◌∷◌, map}
use cmdshape.Base.Tests.{if◌then◌else◌, Bool-cases}
use cmdshape.Base.Strings.{Text, text_eq, text_eq_iff}
use cmdshape.Base.Lists.{select}

other_key : (k i j : Text) → j ≡ i → text_eq j k ≡ false → text_eq k i ≡ false
other_key k i j e h = elim (Bool-cases (text_eq k i)) [
  | inl same ↦
      let back : text_eq j k ≡ true = (text_eq_iff j k).1 (e ∙ sym ((text_eq_iff k i).0 same)) in
      absurd (cc)
  | inr other ↦ other
]

module _ {ℓ} {A : Type ℓ} where
  -- `m[k]`; `none` where the key is missing
  abbrev pub get : Text → List (Text × A) → Option A
  get k [] = none
  get k ((j, a) ∷ m) = if text_eq j k then some a else get k m

  -- `m[k] = f(m[k])`, where `zero_value` stands for a missing entry
  abbrev pub update : Text → A → (A → A) → List (Text × A) → List (Text × A)
  update k zero_value f [] = (k, f zero_value) ∷ []
  update k zero_value f ((j, a) ∷ m) =
      let rest = update k zero_value f m in if text_eq j k then (j, f a) ∷ m else (j, a) ∷ rest

  abbrev pub or_zero : A → Option A → A
  or_zero z none = z
  or_zero z (some a) = a

  pub get-update :
      (k i : Text) (z : A) (f : A → A) (m : List (Text × A))
      → get i (update k z f m) ≡ (if text_eq k i then some (f (or_zero z (get k m))) else get i m)
  get-update k i z f [] = refl
  get-update k i z f ((j, a) ∷ m) = elim (Bool-cases (text_eq j k)) [
    | inl e ↦
        let first = ap (λ x. text_eq x i) ((text_eq_iff j k).0 e) in
        elim (Bool-cases (text_eq k i)) [
          | inl h ↦ rw (e, h, first ∙ h) refl
          | inr h ↦ rw (e, h, first ∙ h) refl
        ]
    | inr e ↦
        let tail = get-update k i z f m in
        elim (Bool-cases (text_eq j i)) [
          | inl h ↦
              let other : text_eq k i ≡ false = other_key k i j ((text_eq_iff j i).0 h) e in
              rw (e, h, other) refl
          | inr h ↦ rw (e, h) tail
        ]
  ]

  -- No key has two entries.
  abbrev pub IsDistinct : List (Text × A) → Type ℓ
  IsDistinct [] = Unit
  IsDistinct ((k, a) ∷ m) = (get k m ≡ none) × IsDistinct m

  pub update-IsDistinct :
      (k : Text) (z : A) (f : A → A) (m : List (Text × A))
      → IsDistinct m
      → IsDistinct (update k z f m)
  update-IsDistinct k z f [] h = (refl, tt)
  update-IsDistinct k z f ((j, a) ∷ m) (fresh, h) = elim (Bool-cases (text_eq j k)) [
    | inl e ↦ rw (e, IsDistinct) (fresh, h)
    | inr e ↦
        let back : text_eq k j ≡ false = other_key k j j refl e in
        let still : get j (update k z f m) ≡ none = get-update k j z f m ∙ rw back fresh in
        rw (e, IsDistinct) (still, update-IsDistinct k z f m h)
  ]

  -- A claim about every entry.
  abbrev pub AllEntries {κ} : (Text → A → Type κ) → List (Text × A) → Type κ
  AllEntries P [] = Unit
  AllEntries P ((k, a) ∷ m) = P k a × AllEntries P m

  pub update-AllEntries {κ} :
      (P : Text → A → Type κ) (k : Text) (z : A) (f : A → A) (m : List (Text × A))
      → ((a : A) → P k (f a))
      → AllEntries P m
      → AllEntries P (update k z f m)
  update-AllEntries P k z f [] step h = (step z, tt)
  update-AllEntries P k z f ((j, a) ∷ m) step (first, rest) = elim (Bool-cases (text_eq j k)) [
    | inl e ↦
        rw (e, AllEntries) (subst (λ i. P i (f a)) (sym ((text_eq_iff j k).0 e)) (step a), rest)
    | inr e ↦ rw (e, AllEntries) (first, update-AllEntries P k z f m step rest)
  ]

-- The values of a map.
abbrev pub values {ℓ} : {A : Type ℓ} → List (Text × A) → List A
values m = map (λ (k, a). a) m

module _ {ℓ κ} {A : Type ℓ} {R : Type κ} (key : R → Text) (zero_value : A) (step : R → A → A) where
  -- The map that grouping records by their keys makes.
  abbrev pub group : List R → List (Text × A) → List (Text × A)
  group [] m = m
  group (r ∷ rs) m = group rs (update (key r) zero_value (step r) m)

  -- All the records, one after the other, in one value.
  abbrev pub gather : List R → Option A → Option A
  gather [] o = o
  gather (r ∷ rs) o = gather rs (some (step r (or_zero zero_value o)))

  -- The entry of a key is what the records with that key make, one after the other.
  pub get-group :
      (k : Text) (rs : List R) (m : List (Text × A))
      → get k (group rs m) ≡ gather (select (λ r. text_eq (key r) k) rs) (get k m)
  get-group k [] m = refl
  get-group k (r ∷ rs) m =
      let now = get-update (key r) k zero_value (step r) m in
      let later = get-group k rs (update (key r) zero_value (step r) m) in
      elim (Bool-cases (text_eq (key r) k)) [
        | inl e ↦
            let found : get k (update (key r) zero_value (step r) m)
                ≡ some (step r (or_zero zero_value (get k m))) =
              now ∙ rw (e, (text_eq_iff (key r) k).0 e) refl in
            rw e (later ∙ ap (gather (select (λ r'. text_eq (key r') k) rs)) found)
        | inr e ↦
            let kept : get k (update (key r) zero_value (step r) m) ≡ get k m = now ∙ rw e refl in
            rw e (later ∙ ap (gather (select (λ r'. text_eq (key r') k) rs)) kept)
      ]

  pub group-IsDistinct :
      (rs : List R) (m : List (Text × A)) → IsDistinct m → IsDistinct (group rs m)
  group-IsDistinct [] m h = h
  group-IsDistinct (r ∷ rs) m h =
      group-IsDistinct rs _ (update-IsDistinct (key r) zero_value (step r) m h)

  pub group-AllEntries {μ} :
      (P : Text → A → Type μ) (rs : List R) (m : List (Text × A))
      → ((r : R) (a : A) → P (key r) (step r a))
      → AllEntries P m
      → AllEntries P (group rs m)
  group-AllEntries P [] m steps h = h
  group-AllEntries P (r ∷ rs) m steps h =
      group-AllEntries P rs _ steps (update-AllEntries P (key r) zero_value (step r) m (steps r) h)

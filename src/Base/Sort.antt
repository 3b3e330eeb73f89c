-- ===== src/Base/Sort.antt =====
-- `slices.SortFunc` with a comparison that tells any two of the elements apart: sorted by insertion,
-- since only one order of the elements is sorted.
use mathlib.Core.Path.{◌≡◌, refl, sym, ap, ◌∙◌}
use mathlib.Core.Logic.{◌⊎◌, inl, inr}
use mathlib.Core.Bool.{Bool, true, false}
use mathlib.Core.Logic.{∥∥₁_elim}
use mathlib.Core.List.{List, [], ◌∷◌, ◌++◌, Mem, mem-cons_self, mem-cons_of_mem, Perm}
use mathlib.Core.List.{Permᴰ}
use mathlib.Core.List.Perm
use cmdshape.Base.Tests.{if◌then◌else◌, Bool-cases}
use cmdshape.Base.Lists.{select}

module _ {ℓ} {A : Type ℓ} (less : A → A → Bool) where
  abbrev pub insert_sorted : A → List A → List A
  insert_sorted a [] = a ∷ []
  insert_sorted a (b ∷ s) = let rest = insert_sorted a s in if less a b then a ∷ b ∷ s else b ∷ rest

  abbrev pub sort_by : List A → List A
  sort_by [] = []
  sort_by (a ∷ s) = insert_sorted a (sort_by s)

  insert_sorted-perm : (a : A) (s : List A) → Perm (insert_sorted a s) (a ∷ s)
  insert_sorted-perm a [] = Perm.refl _
  insert_sorted-perm a (b ∷ s) = elim (Bool-cases (less a b)) [
    | inl h ↦ rw h (Perm.refl _)
    | inr h ↦ rw h (Perm.trans (Perm.cons b (insert_sorted-perm a s)) (Perm.swap a b s))
  ]

  pub sort_by_perm : (s : List A) → Perm (sort_by s) s
  sort_by_perm [] = Perm.refl _
  sort_by_perm (a ∷ s) =
      Perm.trans (insert_sorted-perm a (sort_by s)) (Perm.cons a (sort_by_perm s))

-- A test that orders strictly; any two different elements are ordered where `differs` holds of them.
pub record IsStrict {ℓ} {A : Type ℓ} (less : A → A → Bool) : Type ℓ where
  pub asym : (a b : A) → less a b ≡ true → less b a ≡ false
  pub trans : (a b c : A) → less a b ≡ true → less b c ≡ true → less a c ≡ true

module _ {ℓ} {A : Type ℓ} (less : A → A → Bool) (strict : IsStrict less) where
  insert_below :
      (a b : A) (s : List A)
      → less a b ≡ true
      → insert_sorted less a (insert_sorted less b s)
        ≡ insert_sorted less b (insert_sorted less a s)
  insert_below a b [] h = rw (h, strict.asym a b h) refl
  insert_below a b (c ∷ s) h =
      let back = strict.asym a b h in
      elim (Bool-cases (less b c)) [
        | inl bc ↦ rw (bc, strict.trans a b c h bc, h, back, bc) refl
        | inr bc ↦ elim (Bool-cases (less a c)) [
          | inl ac ↦ rw (bc, ac, back, bc) refl
          | inr ac ↦ rw (bc, ac, bc) (ap (λ (t : List A). c ∷ t) (insert_below a b s h))
        ]
      ]

  pub insert_sorted_swap :
      (a b : A) (s : List A)
      → (a ≡ b) ⊎ ((less a b ≡ true) ⊎ (less b a ≡ true))
      → insert_sorted less a (insert_sorted less b s)
        ≡ insert_sorted less b (insert_sorted less a s)
  insert_sorted_swap a b s (inl e) = rw e refl
  insert_sorted_swap a b s (inr (inl h)) = insert_below a b s h
  insert_sorted_swap a b s (inr (inr h)) = sym (insert_below b a s h)

  -- Any two elements of the list are the same or ordered.
  abbrev pub IsComparable : List A → Type ℓ
  IsComparable xs =
      (a b : A) → Mem a xs → Mem b xs → (a ≡ b) ⊎ ((less a b ≡ true) ⊎ (less b a ≡ true))

  sort_by-permᴰ :
      (xs ys : List A) → Permᴰ xs ys → IsComparable xs → sort_by less xs ≡ sort_by less ys
  sort_by-permᴰ [] [] Permᴰ.nil h = refl
  sort_by-permᴰ (a ∷ xs) (b ∷ ys) (Permᴰ.cons e p) h = rw e (
      ap (insert_sorted less b)
        (sort_by-permᴰ xs ys p (λ x y mx my. h x y (mem-cons_of_mem a mx) (mem-cons_of_mem a my))))
  sort_by-permᴰ _ _ (Permᴰ.swap {a} {b} {a'} {b'} {l} e f) h =
      rw (sym e, sym f)
        (insert_sorted_swap a b (sort_by less l)
          (h a b mem-cons_self (mem-cons_of_mem a mem-cons_self)))
  sort_by-permᴰ _ _ (Permᴰ.trans {l₁} {l₂} {l₃} p q) h =
      sort_by-permᴰ l₁ l₂ p h
      ∙ sort_by-permᴰ l₂ l₃ q
          (λ x y mx my. h x y ((Perm.mem_iff ∣ p ∣₁).1 mx) ((Perm.mem_iff ∣ p ∣₁).1 my))

  pub sort_by-perm :
      IsSet (List A)
      → (xs ys : List A) → Perm xs ys
      → IsComparable xs
      → sort_by less xs ≡ sort_by less ys
  sort_by-perm set xs ys p h = ∥∥₁_elim p (set _ _) (λ d. sort_by-permᴰ xs ys d h)

module _ {ℓ} {A : Type ℓ} (less : A → A → Bool) where
  -- Every element is below those behind it.
  abbrev pub AllAbove : A → List A → Type 0
  AllAbove a [] = Unit
  AllAbove a (b ∷ s) = (less a b ≡ true) × AllAbove a s

  abbrev pub IsAscending : List A → Type 0
  IsAscending [] = Unit
  IsAscending (a ∷ s) = AllAbove a s × IsAscending s

  pub insert_sorted-above : (a : A) (s : List A) → AllAbove a s → insert_sorted less a s ≡ a ∷ s
  insert_sorted-above a [] h = refl
  insert_sorted-above a (b ∷ s) (first, _) = rw first refl

  pub sort_by-ascending : (s : List A) → IsAscending s → sort_by less s ≡ s
  sort_by-ascending [] h = refl
  sort_by-ascending (a ∷ s) (above, h) =
      ap (insert_sorted less a) (sort_by-ascending s h) ∙ insert_sorted-above a s above

  pub select-AllAbove : (p : A → Bool) (a : A) (s : List A) → AllAbove a s → AllAbove a (select p s)
  select-AllAbove p a [] h = tt
  select-AllAbove p a (b ∷ s) (first, rest) = elim (Bool-cases (p b)) [
    | inl e ↦ rw (e, AllAbove) (first, select-AllAbove p a s rest)
    | inr e ↦ rw e (select-AllAbove p a s rest)
  ]

  pub select-IsAscending : (p : A → Bool) (s : List A) → IsAscending s → IsAscending (select p s)
  select-IsAscending p [] h = tt
  select-IsAscending p (b ∷ s) (above, rest) = elim (Bool-cases (p b)) [
    | inl e ↦ rw (e, IsAscending) (select-AllAbove p b s above, select-IsAscending p s rest)
    | inr e ↦ rw e (select-IsAscending p s rest)
  ]

module _ {ℓ} {A : Type ℓ} (less : A → A → Bool) (strict : IsStrict less) where
  -- An element below all those in front of it may as well come first.
  pub sort_by-middle :
      (a : A) (front back : List A)
      → AllAbove less a front
      → sort_by less (front ++ a ∷ back) ≡ insert_sorted less a (sort_by less (front ++ back))
  sort_by-middle a [] back h = refl
  sort_by-middle a (b ∷ front) back (first, rest) =
      ap (insert_sorted less b) (sort_by-middle a front back rest)
      ∙ insert_sorted_swap less strict b a (sort_by less (front ++ back)) (inr (inr first))

-- ===== src/Recovery/Order.antt =====
-- The order of the recordings is strict, and total where their names differ.
use cmdshape.Base.{
  ℤ, insert_sorted, sort_by, All-insert_sorted, int_less_asym, int_less_trans, int_less_irrefl,
  int_less-cases, text_less_irrefl, Bool, true, false, List, [], ◌∷◌, int_less, select, All,
  text_less, text_eq, text_eq_iff, text_less_total, text_less_trans, IsStrict, IsTotal, All-select,
  ◌≡◌, ◌≢◌, ◌⊎◌, refl, sym, ap, ◌∙◌, inl, inr, Bool-cases, All-map,
}
use cmdshape.Recovery.{Entry, newer}

-- The ways in which one entry comes before another.
newer-cases :
    (a b : Entry)
    → newer a b ≡ true
    → (int_less b.mod_time a.mod_time ≡ true)
      ⊎ ((a.mod_time ≡ b.mod_time) × (text_less b.name a.name ≡ true))
unfolding newer
newer-cases a b h = elim (int_less-cases b.mod_time a.mod_time) [
  | inl later ↦ inl later
  | inr (inl same) ↦
      let tied = int_less_irrefl a.mod_time in
      let left : int_less b.mod_time a.mod_time ≡ false =
        ap (λ t. int_less t a.mod_time) same ∙ tied in
      let right : int_less a.mod_time b.mod_time ≡ false = ap (int_less a.mod_time) same ∙ tied in
      inr (sym same, (rw (left, right) at h))
  | inr (inr sooner) ↦
      let left = int_less_asym a.mod_time b.mod_time sooner in
      absurd (let bad = rw (left, sooner) at h in cc)
]

newer_later : (a b : Entry) → int_less b.mod_time a.mod_time ≡ true → newer a b ≡ true
unfolding newer
newer_later a b h = rw h refl

newer_tied :
    (a b : Entry) → a.mod_time ≡ b.mod_time → text_less b.name a.name ≡ true → newer a b ≡ true
unfolding newer
newer_tied a b same h =
    let tied = int_less_irrefl a.mod_time in
    let left : int_less b.mod_time a.mod_time ≡ false =
      ap (λ t. int_less t a.mod_time) (sym same) ∙ tied in
    let right : int_less a.mod_time b.mod_time ≡ false =
      ap (int_less a.mod_time) (sym same) ∙ tied in
    rw (left, right) h

newer_trans : (a b c : Entry) → newer a b ≡ true → newer b c ≡ true → newer a c ≡ true
newer_trans a b c h k = elim (newer-cases a b h) [
  | inl ab ↦ elim (newer-cases b c k) [
    | inl bc ↦ newer_later a c (int_less_trans c.mod_time b.mod_time a.mod_time bc ab)
    | inr (same, _) ↦ newer_later a c (ap (λ t. int_less t a.mod_time) (sym same) ∙ ab)
  ]
  | inr (same, ab) ↦ elim (newer-cases b c k) [
    | inl bc ↦ newer_later a c (ap (int_less c.mod_time) same ∙ bc)
    | inr (same', bc) ↦ newer_tied a c (same ∙ same') (text_less_trans c.name b.name a.name bc ab)
  ]
]

newer_irrefl : (a : Entry) → newer a a ≡ false
unfolding newer
newer_irrefl a = rw (int_less_irrefl a.mod_time, text_less_irrefl a.name) refl

pub newer-IsStrict : IsStrict newer
newer-IsStrict = record {
  asym = λ a b h. elim (Bool-cases (newer b a)) [
    | inl k ↦ let round = newer_trans a b a h k in let never = newer_irrefl a in absurd (cc)
    | inr k ↦ k
  ];
  trans = newer_trans;
}

newer_total : (a b : Entry) → a.name ≢ b.name → (newer a b ≡ true) ⊎ (newer b a ≡ true)
newer_total a b h = elim (int_less-cases a.mod_time b.mod_time) [
  | inl sooner ↦ inr (newer_later b a sooner)
  | inr (inr later) ↦ inl (newer_later a b later)
  | inr (inl same) ↦ elim (text_less_total a.name b.name h) [
    | inl below ↦ inr (newer_tied b a (sym same) below)
    | inr above ↦ inl (newer_tied a b same above)
  ]
]

-- No two entries have the same name.
abbrev pub HasDistinctNames : List Entry → Type 0
HasDistinctNames [] = Unit
HasDistinctNames (e ∷ es) = All (λ x. text_eq x.name e.name ≡ false) es × HasDistinctNames es

pub HasDistinctNames-IsTotal : (es : List Entry) → HasDistinctNames es → IsTotal newer es
HasDistinctNames-IsTotal [] h = tt
HasDistinctNames-IsTotal (e ∷ es) (others, h) = (
  All-map (λ x. text_eq x.name e.name ≡ false) (λ x. (newer e x ≡ true) ⊎ (newer x e ≡ true))
      (λ x differs.
        newer_total e x (λ same. let eq = (text_eq_iff x.name e.name).1 (sym same) in absurd (cc)))
      es others,
  HasDistinctNames-IsTotal es h,
)

pub select-HasDistinctNames :
    (p : Entry → Bool) (es : List Entry) → HasDistinctNames es → HasDistinctNames (select p es)
select-HasDistinctNames p [] h = tt
select-HasDistinctNames p (e ∷ es) (others, h) = elim (Bool-cases (p e)) [
  | inl kept ↦
      rw (kept, HasDistinctNames)
        (
          All-select newer (λ x. text_eq x.name e.name ≡ false) p es others,
          select-HasDistinctNames p es h,
        )
  | inr gone ↦ rw gone (select-HasDistinctNames p es h)
]

-- No entry is older than one behind it.
abbrev pub IsNewestFirst : List Entry → Type 0
IsNewestFirst [] = Unit
IsNewestFirst (e ∷ es) = All (λ x. int_less e.mod_time x.mod_time ≡ false) es × IsNewestFirst es

newer-time : (a b : Entry) → newer a b ≡ true → int_less a.mod_time b.mod_time ≡ false
newer-time a b h = elim (newer-cases a b h) [
  | inl later ↦ int_less_asym b.mod_time a.mod_time later
  | inr (same, _) ↦ ap (int_less a.mod_time) (sym same) ∙ int_less_irrefl a.mod_time
]

not_newer-time : (a b : Entry) → newer a b ≡ false → int_less b.mod_time a.mod_time ≡ false
not_newer-time a b h = elim (Bool-cases (int_less b.mod_time a.mod_time)) [
  | inl later ↦ let bad = newer_later a b later in absurd (cc)
  | inr e ↦ e
]

not_less_trans : (s t u : ℤ) → int_less s t ≡ false → int_less t u ≡ false → int_less s u ≡ false
not_less_trans s t u h k = elim (Bool-cases (int_less s u)) [
  | inr e ↦ e
  | inl e ↦ elim (int_less-cases s t) [
    | inl below ↦ absurd (cc)
    | inr (inl same) ↦ let bad = ap (λ x. int_less x u) (sym same) ∙ e in absurd (cc)
    | inr (inr above) ↦ let bad = int_less_trans t s u above e in absurd (cc)
  ]
]

insert-IsNewestFirst :
    (e : Entry) (es : List Entry) → IsNewestFirst es → IsNewestFirst (insert_sorted newer e es)
insert-IsNewestFirst e [] h = (tt, tt)
insert-IsNewestFirst e (x ∷ es) (first, rest) = elim (Bool-cases (newer e x)) [
  | inl before ↦
      let here = newer-time e x before in
      rw (before, IsNewestFirst)
        (
          (
            here,
            All-map (λ y. int_less x.mod_time y.mod_time ≡ false)
                (λ y. int_less e.mod_time y.mod_time ≡ false)
                (λ y. not_less_trans e.mod_time x.mod_time y.mod_time here) es first,
          ),
          (first, rest),
        )
  | inr behind ↦
      rw (behind, IsNewestFirst)
        (
          All-insert_sorted newer (λ y. int_less x.mod_time y.mod_time ≡ false) e es
              (not_newer-time e x behind) first,
          insert-IsNewestFirst e es rest,
        )
]

pub sort_by-IsNewestFirst : (es : List Entry) → IsNewestFirst (sort_by newer es)
sort_by-IsNewestFirst [] = tt
sort_by-IsNewestFirst (e ∷ es) =
    insert-IsNewestFirst e (sort_by newer es) (sort_by-IsNewestFirst es)

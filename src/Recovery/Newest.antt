-- ===== src/Recovery/Newest.antt =====
-- Rotating keeps the newest recordings.
use cmdshape.Base.{
  append-nil, subst, Bool, true, false, not, ◌||◌, List, [], ◌∷◌, ◌++◌, Text, ℤ, take, drop,
  take-append_drop, select, All, sort_by, text_eq, text_eq_refl, select-sort_by, All-sort_by,
  All-insert_sorted, insert_sorted, ◌≡◌, refl, sym, ap, ◌∙◌, inl, inr, Bool-cases, arith,
}
use cmdshape.Recovery.{
  max_artifacts, Entry, newer, is_candidate, remove_all, retained_recovery_candidates,
  remove_expired, remove_each, remove_overflow, rotate,
}
use cmdshape.Recovery.Kept.{text_eq_sym, is_kept, rotate-is_kept, rotate-others}
use cmdshape.Recovery.Order.{
  IsNewestFirst, sort_by-IsNewestFirst, newer-IsStrict, HasDistinctNames, HasDistinctNames-IsTotal,
  select-HasDistinctNames,
}

select-select_comm :
    (p q : Entry → Bool) (es : List Entry) → select p (select q es) ≡ select q (select p es)
select-select_comm p q [] = refl
select-select_comm p q (e ∷ es) = ground (arith, select-select_comm p q es)

remove_each-select :
    (p : Entry → Bool) (items es : List Entry)
    → select p (remove_each items es) ≡ remove_each items (select p es)
unfolding remove_each remove_all
remove_each-select p [] es = refl
remove_each-select p (item ∷ items) es =
    remove_each-select p items (remove_all item.name es)
    ∙ ap (remove_each items) (select-select_comm p (λ e. not (text_eq e.name item.name)) es)

remove_each-sort_by :
    (items es : List Entry)
    → HasDistinctNames es
    → sort_by newer (remove_each items es) ≡ remove_each items (sort_by newer es)
unfolding remove_each remove_all
remove_each-sort_by [] es h = refl
remove_each-sort_by (item ∷ items) es h =
    let kept : Entry → Bool = λ e. not (text_eq e.name item.name) in
    remove_each-sort_by items (select kept es) (select-HasDistinctNames kept es h)
    ∙ ap (remove_each items)
        (sym (select-sort_by newer newer-IsStrict kept es (HasDistinctNames-IsTotal es h)))

or_true : (b : Bool) → (b || true) ≡ true
or_true true = refl
or_true false = refl

select-weaker :
    (p q : Entry → Bool) (es : List Entry)
    → ((e : Entry) → p e ≡ true → q e ≡ true)
    → select p (select q es) ≡ select p es
select-weaker p q [] h = refl
select-weaker p q (e ∷ es) h = elim (Bool-cases (p e)) [
  | inl on ↦ rw (h e on, on) (ap (λ (t : List Entry). e ∷ t) (select-weaker p q es h))
  | inr off ↦ elim (Bool-cases (q e)) [
    | inl kept ↦ rw (kept, off) (select-weaker p q es h)
    | inr gone ↦ rw (gone, off) (select-weaker p q es h)
  ]
]

-- What is expired is no candidate.
expired-candidates :
    (cutoff : ℤ) (es : List Entry)
    → select (is_candidate cutoff) (remove_expired cutoff es) ≡ select (is_candidate cutoff) es
unfolding remove_expired
expired-candidates cutoff es =
    select-weaker (is_candidate cutoff) (λ e. not e.is_dir || is_candidate cutoff e) es
      (λ e on. rw on (or_true (not e.is_dir)))

insert-HasDistinctNames :
    (e : Entry) (es : List Entry)
    → HasDistinctNames (e ∷ es)
    → HasDistinctNames (insert_sorted newer e es)
insert-HasDistinctNames e [] h = h
insert-HasDistinctNames e (x ∷ es) ((first, others), (apart, h)) = elim (Bool-cases (newer e x)) [
  | inl before ↦ rw (before, HasDistinctNames) ((first, others), (apart, h))
  | inr behind ↦
      rw (behind, HasDistinctNames)
        (
          All-insert_sorted newer (λ y. text_eq y.name x.name ≡ false) e es
              (text_eq_sym x.name e.name first) apart,
          insert-HasDistinctNames e es (others, h),
        )
]

sort_by-HasDistinctNames :
    (es : List Entry) → HasDistinctNames es → HasDistinctNames (sort_by newer es)
sort_by-HasDistinctNames [] h = tt
sort_by-HasDistinctNames (e ∷ es) (others, h) = insert-HasDistinctNames e (sort_by newer es) (
  All-sort_by newer (λ x. text_eq x.name e.name ≡ false) es others,
  sort_by-HasDistinctNames es h,
)

-- Removing an entry by its name removes nothing else.
remove_all-other :
    (name : Text) (es : List Entry)
    → All (λ x. text_eq x.name name ≡ false) es
    → remove_all name es ≡ es
unfolding remove_all
remove_all-other name [] h = refl
remove_all-other name (e ∷ es) (first, rest) =
    rw first (ap (λ (t : List Entry). e ∷ t) (remove_all-other name es rest))

All-middle :
    (P : Entry → Type 0) (e : Entry) (front back : List Entry)
    → All P (front ++ e ∷ back)
    → P e × All P (front ++ back)
All-middle P e [] back h = h
All-middle P e (x ∷ front) back (first, rest) =
    let (here, around) = All-middle P e front back rest in (here, (first, around))

remove_all-middle :
    (e : Entry) (front back : List Entry)
    → HasDistinctNames (front ++ e ∷ back)
    → (remove_all e.name (front ++ e ∷ back) ≡ front ++ back) × HasDistinctNames (front ++ back)
unfolding remove_all
remove_all-middle e [] back (others, apart) =
    (rw (text_eq_refl e.name) (remove_all-other e.name back others), apart)
remove_all-middle e (x ∷ front) back (others, apart) =
    let (here, around) = All-middle (λ y. text_eq y.name x.name ≡ false) e front back others in
    let (gone, distinct) = remove_all-middle e front back apart in
    (rw (text_eq_sym e.name x.name here) (ap (λ (t : List Entry). x ∷ t) gone), (around, distinct))

remove_each-behind :
    (front items : List Entry)
    → HasDistinctNames (front ++ items)
    → remove_each items (front ++ items) ≡ front
unfolding remove_each
remove_each-behind front [] h = append-nil front
remove_each-behind front (item ∷ items) h =
    let (gone, apart) = remove_all-middle item front items h in
    ap (remove_each items) gone ∙ remove_each-behind front items apart

-- Sorted from the newest on, the candidates that stay are the first ones of the sorted candidates.
rotate-newest :
    (cutoff : ℤ) (entries : List Entry)
    → HasDistinctNames entries
    → sort_by newer (select (is_candidate cutoff) (rotate cutoff entries))
      ≡ take max_artifacts (sort_by newer (select (is_candidate cutoff) entries))
unfolding rotate remove_overflow retained_recovery_candidates
rotate-newest cutoff entries h =
    let candidates = select (is_candidate cutoff) entries in
    let sorted = sort_by newer candidates in
    let overflow = drop max_artifacts sorted in
    let apart = select-HasDistinctNames (is_candidate cutoff) entries h in
    let whole = take-append_drop max_artifacts sorted in
    ap (sort_by newer) (
      remove_each-select (is_candidate cutoff) overflow (remove_expired cutoff entries)
      ∙ ap (remove_each overflow) (expired-candidates cutoff entries))
    ∙ remove_each-sort_by overflow candidates apart
    ∙ ap (remove_each overflow) (sym whole)
    ∙ remove_each-behind (take max_artifacts sorted) overflow
        (subst HasDistinctNames (sym whole) (sort_by-HasDistinctNames candidates apart))

-- A rotation takes entries out of the directory and leaves the others in their order. Sorted from the
-- newest on, where no recording is older than one behind it, the recordings that it leaves are the
-- first twenty of those that are not too old, all of them where there are fewer; and everything else
-- that it leaves is what is no directory, all of it: the directories that are too old are gone.
pub rotate_lem :
    (cutoff : ℤ) (entries : List Entry)
    → HasDistinctNames entries
    → ((kept : Entry → Bool) × (rotate cutoff entries ≡ select kept entries))
      × (sort_by newer (select (is_candidate cutoff) (rotate cutoff entries))
          ≡ take max_artifacts (sort_by newer (select (is_candidate cutoff) entries)))
      × IsNewestFirst (sort_by newer (select (is_candidate cutoff) entries))
      × (select (λ e. not (is_candidate cutoff e)) (rotate cutoff entries)
          ≡ select (λ e. not e.is_dir) entries)
rotate_lem cutoff entries h = (
  (is_kept cutoff entries, rotate-is_kept cutoff entries),
  rotate-newest cutoff entries h,
  sort_by-IsNewestFirst (select (is_candidate cutoff) entries),
  rotate-others cutoff entries h,
)

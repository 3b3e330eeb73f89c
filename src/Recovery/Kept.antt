-- ===== src/Recovery/Kept.antt =====
-- Which entries a rotation keeps.
use cmdshape.Base.{
  subst, ℕ, zero, suc, any, text_eq_refl, Bool, true, false, not, ◌&&◌, ◌||◌, List, [], ◌∷◌, Text,
  ℤ, int_less, drop, select, All, All-map, All-select, All-sort_by, sort_by, insert_sorted-above,
  AllAbove, text_eq, text_eq_iff, ◌≡◌, refl, sym, ap, ◌∙◌, inl, inr, Bool-cases, arith,
}
use cmdshape.Recovery.{
  max_artifacts, Entry, newer, is_candidate, remove_all, retained_recovery_candidates,
  remove_expired, remove_each, remove_overflow, rotate, has_entry,
}
use cmdshape.Recovery.Order.{HasDistinctNames}

pub text_eq_sym : (s t : Text) → text_eq s t ≡ false → text_eq t s ≡ false
text_eq_sym s t h = elim (Bool-cases (text_eq t s)) [
  | inl e ↦
      let same : text_eq s t ≡ true = (text_eq_iff s t).1 (sym ((text_eq_iff t s).0 e)) in
      absurd (cc)
  | inr e ↦ e
]

All-map2 :
    (P Q R : Entry → Type 0) (es : List Entry)
    → ((e : Entry) → P e → Q e → R e)
    → All P es
    → All Q es
    → All R es
All-map2 P Q R [] f h k = tt
All-map2 P Q R (e ∷ es) f (first, rest) (first', rest') =
    (f e first first', All-map2 P Q R es f rest rest')

All-drop : (P : Entry → Type 0) (n : ℕ) (es : List Entry) → All P es → All P (drop n es)
All-drop P zero es h = h
All-drop P (suc n) [] h = h
All-drop P (suc n) (e ∷ es) (first, rest) = All-drop P n es rest

-- The entry has another name than all of these.
abbrev stays : List Entry → Entry → Bool
stays [] e = true
stays (item ∷ items) e = not (text_eq e.name item.name) && stays items e

All-stays :
    (e : Entry) (items : List Entry)
    → All (λ i. text_eq e.name i.name ≡ false) items
    → stays items e ≡ true
All-stays e [] h = refl
All-stays e (item ∷ items) (first, rest) = rw first (All-stays e items rest)

pub select-select :
    (p q : Entry → Bool) (es : List Entry) → select p (select q es) ≡ select (λ e. q e && p e) es
select-select p q [] = refl
select-select p q (e ∷ es) = ground (arith, select-select p q es)

select-same :
    (p q : Entry → Bool) (es : List Entry) → All (λ e. p e ≡ q e) es → select p es ≡ select q es
select-same p q [] h = refl
select-same p q (e ∷ es) (first, rest) = let later = select-same p q es rest in ground arith

remove_each-stays : (items es : List Entry) → remove_each items es ≡ select (stays items) es
unfolding remove_each remove_all
remove_each-stays [] [] = refl
remove_each-stays [] (e ∷ es) = ap (λ (t : List Entry). e ∷ t) (remove_each-stays [] es)
remove_each-stays (item ∷ items) es =
    remove_each-stays items (remove_all item.name es)
    ∙ select-select (stays items) (λ e. not (text_eq e.name item.name)) es

abbrev pub overflow : ℤ → List Entry → List Entry
overflow cutoff entries = drop max_artifacts (sort_by newer (select (is_candidate cutoff) entries))

-- What a rotation keeps: what is neither an expired directory nor in the overflow.
abbrev pub is_kept : ℤ → List Entry → Entry → Bool
is_kept cutoff entries e =
    (not e.is_dir || is_candidate cutoff e) && stays (overflow cutoff entries) e

pub rotate-is_kept :
    (cutoff : ℤ) (entries : List Entry)
    → rotate cutoff entries ≡ select (is_kept cutoff entries) entries
unfolding rotate remove_overflow retained_recovery_candidates remove_expired
rotate-is_kept cutoff entries =
    remove_each-stays (overflow cutoff entries)
      (select (λ e. not e.is_dir || is_candidate cutoff e) entries)
    ∙ select-select (stays (overflow cutoff entries)) (λ e. not e.is_dir || is_candidate cutoff e)
        entries

first_in :
    (p : Entry → Bool) (x : Entry) (es : List Entry)
    → p x ≡ true
    → select p (x ∷ es) ≡ x ∷ select p es
first_in p x es on = rw on refl

first_out :
    (p : Entry → Bool) (x : Entry) (es : List Entry) → p x ≡ false → select p (x ∷ es) ≡ select p es
first_out p x es off = rw off refl

-- An entry that is no directory has another name than every candidate.
abbrev IsApart : List Entry → Entry → Type 0
IsApart items e = e.is_dir ≡ false → All (λ i. text_eq e.name i.name ≡ false) items

candidates-IsApart :
    (cutoff : ℤ) (es : List Entry)
    → HasDistinctNames es
    → All (IsApart (select (is_candidate cutoff) es)) es
candidates-IsApart cutoff [] h = tt
candidates-IsApart cutoff (x ∷ es) (others, h) =
    let items = select (is_candidate cutoff) es in
    let here : All (λ i. text_eq x.name i.name ≡ false) items =
      All-select newer (λ i. text_eq x.name i.name ≡ false) (is_candidate cutoff) es
        (All-map (λ e. text_eq e.name x.name ≡ false) (λ i. text_eq x.name i.name ≡ false)
          (λ e. text_eq_sym e.name x.name) es others) in
    let behind = candidates-IsApart cutoff es h in
    elim (Bool-cases (is_candidate cutoff x)) [
      | inl on ↦
          subst (λ (t : List Entry). All (IsApart t) (x ∷ es))
            (sym (first_in (is_candidate cutoff) x es on))
            (
              λ file. absurd (ground arith),
              All-map2 (λ e. text_eq e.name x.name ≡ false) (IsApart items) (IsApart (x ∷ items)) es
                  (λ e differs apart file. (differs, apart file)) others behind,
            )
      | inr off ↦
          subst (λ (t : List Entry). All (IsApart t) (x ∷ es))
            (sym (first_out (is_candidate cutoff) x es off)) (λ file. here, behind)
    ]

-- The tests of an entry that is kept and no candidate.
keeps_others :
    (dir old apart : Bool)
    → (dir ≡ false → apart ≡ true)
    → (((not dir || (dir && not old)) && apart) && not (dir && not old)) ≡ not dir
keeps_others true true true h = refl
keeps_others true true false h = refl
keeps_others true false true h = refl
keeps_others true false false h = refl
keeps_others false old apart h = rw (h refl) refl

-- Of the entries that are no candidates, those that are no directories stay, and they alone.
pub rotate-others :
    (cutoff : ℤ) (entries : List Entry)
    → HasDistinctNames entries
    → select (λ e. not (is_candidate cutoff e)) (rotate cutoff entries)
      ≡ select (λ e. not e.is_dir) entries
rotate-others cutoff entries h =
    let candidates = select (is_candidate cutoff) entries in
    ap (select (λ e. not (is_candidate cutoff e))) (rotate-is_kept cutoff entries)
    ∙ select-select (λ e. not (is_candidate cutoff e)) (is_kept cutoff entries) entries
    ∙ select-same (λ e. is_kept cutoff entries e && not (is_candidate cutoff e)) (λ e. not e.is_dir)
        entries
        (All-map (IsApart candidates)
          (λ e. (is_kept cutoff entries e && not (is_candidate cutoff e)) ≡ not e.is_dir)
          (λ e apart.
            keeps_others e.is_dir (int_less e.mod_time cutoff) (stays (overflow cutoff entries) e)
              (λ file. All-stays e (overflow cutoff entries) (
                All-drop (λ i. text_eq e.name i.name ≡ false) max_artifacts
                  (sort_by newer candidates)
                  (All-sort_by newer (λ i. text_eq e.name i.name ≡ false) candidates
                    (apart file)))))
          entries (candidates-IsApart cutoff entries h))

keeps_new :
    (dir old apart : Bool)
    → (dir && not old) ≡ true
    → apart ≡ true
    → ((not dir || (dir && not old)) && apart) ≡ true
keeps_new dir old apart h k = ground arith

All-AllAbove : (e : Entry) (es : List Entry) → All (λ x. newer e x ≡ true) es → AllAbove newer e es
All-AllAbove e [] h = tt
All-AllAbove e (x ∷ es) (first, rest) = (first, All-AllAbove e es rest)

-- A new recording that comes before all others is there after the rotation.
pub has_entry-rotate :
    (cutoff : ℤ) (entry : Entry) (entries : List Entry)
    → is_candidate cutoff entry ≡ true
    → HasDistinctNames (entry ∷ entries)
    → All (λ e. newer entry e ≡ true) entries
    → has_entry entry.name (rotate cutoff (entry ∷ entries)) ≡ true
unfolding has_entry
has_entry-rotate cutoff entry entries on (others, h) first =
    let candidates = select (is_candidate cutoff) entries in
    let sorted = sort_by newer candidates in
    let above : All (λ e. newer entry e ≡ true) sorted =
      All-sort_by newer (λ e. newer entry e ≡ true) candidates
        (All-select newer (λ e. newer entry e ≡ true) (is_candidate cutoff) entries first) in
    let in_front : sort_by newer (select (is_candidate cutoff) (entry ∷ entries)) ≡ entry ∷ sorted =
      ap (sort_by newer) (first_in (is_candidate cutoff) entry entries on)
      ∙ insert_sorted-above newer entry sorted (All-AllAbove entry sorted above) in
    let named = λ (e : Entry). text_eq entry.name e.name ≡ false in
    let differs : All named sorted = All-sort_by newer named candidates (
      All-select newer named (is_candidate cutoff) entries (
        All-map (λ e. text_eq e.name entry.name ≡ false) named (λ e. text_eq_sym e.name entry.name)
          entries others)) in
    let kept : stays (overflow cutoff (entry ∷ entries)) entry ≡ true =
      ap (λ (t : List Entry). stays (drop max_artifacts t) entry) in_front
      ∙ All-stays entry (drop 19 sorted) (All-drop named 19 sorted differs) in
    ap (λ (t : List Entry). any (λ e. text_eq e.name entry.name) t)
      (rotate-is_kept cutoff (entry ∷ entries)
        ∙ first_in (is_kept cutoff (entry ∷ entries)) entry entries (
            keeps_new entry.is_dir (int_less entry.mod_time cutoff)
              (stays (overflow cutoff (entry ∷ entries)) entry) on kept))
    ∙ rw (text_eq_refl entry.name) refl

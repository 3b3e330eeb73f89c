-- ===== src/Metrics/Tests/Bucket.antt =====
-- A bucket that is a list in the order of its keys, for the tests of the store.
use cmdshape.Base.{
  ℕ, suc, true, false, [], ◌∷◌, Option, none, some, Text, text_eq, text_eq_iff, text_eq_refl,
  text_less, text_less_irrefl, text_less_trans, text_less_total, ◌≡◌, ◌≢◌, refl, sym, ap, ◌∙◌, inl,
  inr, Bool-cases, if◌then◌else◌, get,
}
use mathlib.Core.Option
use mathlib.Core.Logic.{∥∥₁_elim}
use mathlib.Core.List.{Memᴰ}
use cmdshape.Metrics.Queries.{Entries}
use cmdshape.Metrics.Store.{Bolt, IsBolt, AreAbove, IsOrdered}

abbrev pub put_entry : Text → Text → Entries → Entries
put_entry k v [] = (k, v) ∷ []
put_entry k v ((j, w) ∷ es) =
    let rest = put_entry k v es in
    if text_eq j k
    then (j, v) ∷ es
    else if text_less k j
    then (k, v) ∷ (j, w) ∷ es
    else (j, w) ∷ rest

abbrev pub remove_entry : Text → Entries → Entries
remove_entry k [] = []
remove_entry k ((j, w) ∷ es) =
    let rest = remove_entry k es in if text_eq j k then es else (j, w) ∷ rest

put_entry-AreAbove :
    (i k v : Text) (es : Entries)
    → text_less i k ≡ true
    → AreAbove i es
    → AreAbove i (put_entry k v es)
put_entry-AreAbove i k v [] h above = (h, tt)
put_entry-AreAbove i k v ((j, w) ∷ es) h (first, rest) = elim (Bool-cases (text_eq j k)) [
  | inl e ↦ rw (e, AreAbove) (first, rest)
  | inr e ↦ elim (Bool-cases (text_less k j)) [
    | inl l ↦ rw (e, l, AreAbove) (h, (first, rest))
    | inr l ↦ rw (e, l, AreAbove) (first, put_entry-AreAbove i k v es h rest)
  ]
]

AreAbove-trans : (i j : Text) (es : Entries) → text_less i j ≡ true → AreAbove j es → AreAbove i es
AreAbove-trans i j [] h above = tt
AreAbove-trans i j ((k, v) ∷ es) h (first, rest) =
    (text_less_trans i j k h first, AreAbove-trans i j es h rest)

pub put_entry-IsOrdered : (k v : Text) (es : Entries) → IsOrdered es → IsOrdered (put_entry k v es)
put_entry-IsOrdered k v [] h = (tt, tt)
put_entry-IsOrdered k v ((j, w) ∷ es) (above, h) = elim (Bool-cases (text_eq j k)) [
  | inl e ↦ rw (e, IsOrdered) (above, h)
  | inr e ↦ elim (Bool-cases (text_less k j)) [
    | inl l ↦ rw (e, l, IsOrdered) ((l, AreAbove-trans k j es l above), (above, h))
    | inr l ↦
        let below : text_less j k ≡ true =
          elim (text_less_total j k (λ same. let f = (text_eq_iff j k).1 same in absurd (cc))) [
            | inl jk ↦ jk
            | inr kj ↦ absurd (cc)
          ] in
        rw (e, l, IsOrdered) (put_entry-AreAbove j k v es below above, put_entry-IsOrdered k v es h)
  ]
]

remove_entry-AreAbove : (i k : Text) (es : Entries) → AreAbove i es → AreAbove i (remove_entry k es)
remove_entry-AreAbove i k [] h = tt
remove_entry-AreAbove i k ((j, w) ∷ es) (first, rest) = elim (Bool-cases (text_eq j k)) [
  | inl e ↦ rw e rest
  | inr e ↦ rw (e, AreAbove) (first, remove_entry-AreAbove i k es rest)
]

pub remove_entry-IsOrdered :
    (k : Text) (es : Entries) → IsOrdered es → IsOrdered (remove_entry k es)
remove_entry-IsOrdered k [] h = tt
remove_entry-IsOrdered k ((j, w) ∷ es) (above, h) = elim (Bool-cases (text_eq j k)) [
  | inl e ↦ rw e h
  | inr e ↦ rw (e, IsOrdered) (remove_entry-AreAbove j k es above, remove_entry-IsOrdered k es h)
]

get-above : (k : Text) (es : Entries) → AreAbove k es → get k es ≡ none
get-above k [] h = refl
get-above k ((j, w) ∷ es) (first, rest) = elim (Bool-cases (text_eq j k)) [
  | inl e ↦
      let same : text_less k k ≡ true = ap (text_less k) (sym ((text_eq_iff j k).0 e)) ∙ first in
      let never = text_less_irrefl k in absurd (cc)
  | inr e ↦ rw e (get-above k es rest)
]

get-Memᴰ : (k v : Text) (es : Entries) → IsOrdered es → Memᴰ (k, v) es → get k es ≡ some v
get-Memᴰ k v [] h d = elim d [ ]
get-Memᴰ k v ((j, w) ∷ es) (above, h) (Memᴰ.head e) =
    let same : text_eq j k ≡ true = (text_eq_iff j k).1 (sym (ap (λ (p : Text × Text). p.0) e)) in
    rw same (ap some (sym (ap (λ (p : Text × Text). p.1) e)))
get-Memᴰ k v ((j, w) ∷ es) (above, h) (Memᴰ.tail d) = elim (Bool-cases (text_eq j k)) [
  | inl e ↦
      let missing : get k es ≡ none =
        ap (λ (i : Text). get i es) (sym ((text_eq_iff j k).0 e)) ∙ get-above j es above in
      let there = get-Memᴰ k v es h d in absurd (cc)
  | inr e ↦ rw e (get-Memᴰ k v es h d)
]

get-put : (k v : Text) (es : Entries) → get k (put_entry k v es) ≡ some v
get-put k v [] = rw (text_eq_refl k) refl
get-put k v ((j, w) ∷ es) = elim (Bool-cases (text_eq j k)) [
  | inl e ↦ rw (e, e) refl
  | inr e ↦ elim (Bool-cases (text_less k j)) [
    | inl l ↦ rw (e, l, text_eq_refl k) refl
    | inr l ↦ rw (e, l, e) (get-put k v es)
  ]
]

not_eq : (i k : Text) → i ≢ k → text_eq k i ≡ false
not_eq i k h = elim (Bool-cases (text_eq k i)) [
  | inl e ↦ absurd (h (sym ((text_eq_iff k i).0 e)))
  | inr e ↦ e
]

get-put_other : (k v i : Text) (es : Entries) → i ≢ k → get i (put_entry k v es) ≡ get i es
get-put_other k v i [] h = rw (not_eq i k h) refl
get-put_other k v i ((j, w) ∷ es) h = elim (Bool-cases (text_eq j k)) [
  | inl e ↦
      let differs : text_eq j i ≡ false =
        ap (λ (x : Text). text_eq x i) ((text_eq_iff j k).0 e) ∙ not_eq i k h in
      rw (e, differs) refl
  | inr e ↦ elim (Bool-cases (text_less k j)) [
    | inl l ↦ rw (e, l, not_eq i k h) refl
    | inr l ↦ elim (Bool-cases (text_eq j i)) [
      | inl here ↦ rw (e, l, here) refl
      | inr there ↦ rw (e, l, there) (get-put_other k v i es h)
    ]
  ]
]

get-remove : (k : Text) (es : Entries) → IsOrdered es → get k (remove_entry k es) ≡ none
get-remove k [] h = refl
get-remove k ((j, w) ∷ es) (above, h) = elim (Bool-cases (text_eq j k)) [
  | inl e ↦ rw e (ap (λ (i : Text). get i es) (sym ((text_eq_iff j k).0 e)) ∙ get-above j es above)
  | inr e ↦ rw (e, e) (get-remove k es h)
]

get-remove_other : (k i : Text) (es : Entries) → i ≢ k → get i (remove_entry k es) ≡ get i es
get-remove_other k i [] h = refl
get-remove_other k i ((j, w) ∷ es) h = elim (Bool-cases (text_eq j k)) [
  | inl e ↦
      let differs : text_eq j i ≡ false =
        ap (λ (x : Text). text_eq x i) ((text_eq_iff j k).0 e) ∙ not_eq i k h in
      rw (e, differs) refl
  | inr e ↦ elim (Bool-cases (text_eq j i)) [
    | inl here ↦ rw (e, here) refl
    | inr there ↦ rw (e, there) (get-remove_other k i es h)
  ]
]

-- The entries, and the last number of the sequence.
abbrev pub ListBucket : Type 0
ListBucket = ((es : Entries) × IsOrdered es) × ℕ

abbrev pub bucket : Bolt ListBucket
bucket = record {
  entries = λ b. b.0.0;
  get_value = λ k b. get k b.0.0;
  put = λ k v b. some ((put_entry k v b.0.0, put_entry-IsOrdered k v b.0.0 b.0.1), b.1);
  delete = λ k b. some ((remove_entry k b.0.0, remove_entry-IsOrdered k b.0.0 b.0.1), b.1);
  next_sequence = λ b. some (suc b.1, (b.0, suc b.1));
}

Option_text_set : IsSet (Option Text)
Option_text_set = hlevel

pub bucket-IsBolt : IsBolt bucket
bucket-IsBolt = record {
  ordered = λ b. b.0.1;
  get_entry = λ b k v m. ∥∥₁_elim m (Option_text_set _ _) (λ d. get-Memᴰ k v b.0.0 b.0.1 d);
  get_put = λ k v b b' e.
      ap (λ (c : ListBucket). get k c.0.0) (sym (Option.some_inj.0 e)) ∙ get-put k v b.0.0;
  get_put_other = λ k v j b b' e h.
      ap (λ (c : ListBucket). get j c.0.0) (sym (Option.some_inj.0 e))
      ∙ get-put_other k v j b.0.0 h;
  get_delete_other = λ k j b b' e h.
      ap (λ (c : ListBucket). get j c.0.0) (sym (Option.some_inj.0 e))
      ∙ get-remove_other k j b.0.0 h;
  get_delete = λ k b b' e.
      ap (λ (c : ListBucket). get k c.0.0) (sym (Option.some_inj.0 e)) ∙ get-remove k b.0.0 b.0.1;
  get_sequence =
      λ j b b' n e. ap (λ (c : ℕ × ListBucket). get j (c.1).0.0) (sym (Option.some_inj.0 e));
}

-- ===== src/Engine/Buffer/Order.antt =====
-- The order of `Entries`: a stable sort by sequence.
use mathlib.Core.List.Perm
use cmdshape.Base.{
  ℕ, ◌≤◌, List, [], ◌∷◌, Perm, ◌≡◌, refl, arith, All, select, leb, ◌==◌, Bool-cases, inl, inr,
}
use cmdshape.Engine.Buffer.{
  BufferEntry, OrderedBuffer, insert_entry, sort_by_sequence, sorted_entries,
}

-- Ordered by sequence, each entry against all behind it.
abbrev pub IsSorted : List BufferEntry → Type 0
IsSorted [] = Unit
IsSorted (e ∷ es) = All (λ x. e.sequence ≤ x.sequence) es × IsSorted es

All-le_trans :
    (m n : ℕ) (es : List BufferEntry)
    → m ≤ n
    → All (λ x. n ≤ x.sequence) es
    → All (λ x. m ≤ x.sequence) es
All-le_trans m n [] h a = tt
All-le_trans m n (e ∷ es) h a = (omega arith, All-le_trans m n es h a.1)

insert_entry-All :
    (m : ℕ) (e : BufferEntry) (es : List BufferEntry)
    → m ≤ e.sequence
    → All (λ x. m ≤ x.sequence) es
    → All (λ x. m ≤ x.sequence) (insert_entry e es)
unfolding insert_entry
insert_entry-All m e [] h a = (h, tt)
insert_entry-All m e (x ∷ xs) h a = elim (Bool-cases (leb e.sequence x.sequence)) [
  | inl le ↦ rw le (h, a)
  | inr gt ↦ rw gt (a.0, insert_entry-All m e xs h a.1)
]

insert_entry-IsSorted :
    (e : BufferEntry) (es : List BufferEntry) → IsSorted es → IsSorted (insert_entry e es)
unfolding insert_entry
insert_entry-IsSorted e [] s = (tt, tt)
insert_entry-IsSorted e (x ∷ xs) s = elim (Bool-cases (leb e.sequence x.sequence)) [
  | inl le ↦
      let below : e.sequence ≤ x.sequence = ground arith in
      rw le ((below, All-le_trans e.sequence x.sequence xs below s.0), s)
  | inr gt ↦
      rw gt (insert_entry-All x.sequence e xs (ground arith) s.0, insert_entry-IsSorted e xs s.1)
]

pub sort-IsSorted : (es : List BufferEntry) → IsSorted (sort_by_sequence es)
unfolding sort_by_sequence
sort-IsSorted [] = tt
sort-IsSorted (e ∷ es) = insert_entry-IsSorted e (sort_by_sequence es) (sort-IsSorted es)

insert_entry-perm : (e : BufferEntry) (es : List BufferEntry) → Perm (insert_entry e es) (e ∷ es)
unfolding insert_entry
insert_entry-perm e [] = Perm.refl _
insert_entry-perm e (x ∷ xs) = elim (Bool-cases (leb e.sequence x.sequence)) [
  | inl le ↦ rw le (Perm.refl _)
  | inr gt ↦ rw gt (Perm.trans (Perm.cons x (insert_entry-perm e xs)) (Perm.swap e x xs))
]

pub sort-perm : (es : List BufferEntry) → Perm (sort_by_sequence es) es
unfolding sort_by_sequence
sort-perm [] = Perm.refl _
sort-perm (e ∷ es) = Perm.trans (insert_entry-perm e _) (Perm.cons e (sort-perm es))

-- An entry goes in front of all others with its sequence.
insert_entry-select :
    (n : ℕ) (e : BufferEntry) (es : List BufferEntry)
    → select (λ x. x.sequence == n) (insert_entry e es) ≡ select (λ x. x.sequence == n) (e ∷ es)
unfolding insert_entry
insert_entry-select n e [] = refl
insert_entry-select n e (x ∷ xs) = ground (arith, insert_entry-select n e xs)

-- The sort is stable: the entries of one sequence keep their order.
pub sort-select :
    (n : ℕ) (es : List BufferEntry)
    → select (λ x. x.sequence == n) (sort_by_sequence es) ≡ select (λ x. x.sequence == n) es
unfolding sort_by_sequence
sort-select n [] = refl
sort-select n (e ∷ es) =
    ground (arith, insert_entry-select n e (sort_by_sequence es), sort-select n es)

insert_entry-least :
    (e : BufferEntry) (es : List BufferEntry)
    → All (λ x. e.sequence ≤ x.sequence) es
    → insert_entry e es ≡ e ∷ es
unfolding insert_entry
insert_entry-least e [] a = refl
insert_entry-least e (x ∷ xs) a = ground arith

-- What is in order already stays as it is.
pub sort-eq_self : (es : List BufferEntry) → IsSorted es → sort_by_sequence es ≡ es
unfolding sort_by_sequence
sort-eq_self [] s = refl
sort-eq_self (e ∷ es) s = rw (sort-eq_self es s.1) (insert_entry-least e es s.0)

-- `Entries` lists what the buffer holds, each entry as often, in the order of the sequences, and
-- entries of one sequence in the order in which they were added.
pub sorted_entries_lem :
    (b : OrderedBuffer)
    → Perm (sorted_entries b) b.entries
      × IsSorted (sorted_entries b)
      × ((n : ℕ)
          → select (λ x. x.sequence == n) (sorted_entries b)
            ≡ select (λ x. x.sequence == n) b.entries)
unfolding sorted_entries
sorted_entries_lem b = (sort-perm b.entries, sort-IsSorted b.entries, λ n. sort-select n b.entries)

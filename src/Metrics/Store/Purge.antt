-- ===== src/Metrics/Store/Purge.antt =====
-- Purging removes what is older than the cutoff and keeps the rest.
use cmdshape.Base.{
  ℕ, suc, true, false, [], ◌∷◌, Option, none, some, Text, text_eq, text_eq_iff, ℤ, ◌≡◌, ◌≢◌, sym,
  ap, ◌∙◌, inl, inr, Bool-cases, if◌then◌else◌,
}
use mathlib.Core.Option
use mathlib.Core.Logic.{∥∥₁_elim}
use mathlib.Core.List.{Mem, Memᴰ}
use cmdshape.Metrics.Queries.{Entries}
use cmdshape.Metrics.Store.{Bolt, IsBolt, IsOrdered, Db, is_old, purge_loop, purge_before}
use cmdshape.Metrics.Store.Once.{bind-some}
use cmdshape.Metrics.Store.Old.{HasRunKeys, is_old-before, ordered_head, run_key}

module _ {B : Type 0} (bolt : Bolt B) (laws : IsBolt bolt) where
  purge_loop_step :
      (cutoff : ℤ) (k v : Text) (es : Entries) (b b' : B) (n : ℕ)
      → is_old cutoff k ≡ true
      → purge_loop bolt cutoff ((k, v) ∷ es) b ≡ some (n, b')
      → (b1 : B) × (m : ℕ) × (bolt.delete k b ≡ some b1)
        × (purge_loop bolt cutoff es b1 ≡ some (m, b'))
        × (n ≡ suc m)
  unfolding purge_loop
  purge_loop_step cutoff k v es b b' n old e =
      let (b1, gone, e1) = bind-some (bolt.delete k b) _ (n, b') (rw (old, purge_loop) at e) in
      let ((m, b2), rest, e2) = bind-some (purge_loop bolt cutoff es b1) _ (n, b') e1 in
      let pair = Option.some_inj.0 e2 in
      (
        b1,
        m,
        gone,
        rest ∙ ap (λ (x : B). some (m, x)) (ap (λ (p : ℕ × B). p.1) pair),
        sym (ap (λ (p : ℕ × B). p.0) pair),
      )

  purge_loop_stop :
      (cutoff : ℤ) (k v : Text) (es : Entries) (b b' : B) (n : ℕ)
      → is_old cutoff k ≡ false
      → purge_loop bolt cutoff ((k, v) ∷ es) b ≡ some (n, b')
      → (n ≡ 0) × (b' ≡ b)
  unfolding purge_loop
  purge_loop_stop cutoff k v es b b' n kept e =
      let pair = Option.some_inj.0 (rw (kept, purge_loop) at e) in
      (sym (ap (λ (p : ℕ × B). p.0) pair), sym (ap (λ (p : ℕ × B). p.1) pair))

  purge_loop_end :
      (cutoff : ℤ) (b b' : B) (n : ℕ)
      → purge_loop bolt cutoff [] b ≡ some (n, b')
      → (n ≡ 0) × (b' ≡ b)
  unfolding purge_loop
  purge_loop_end cutoff b b' n e =
      let pair = Option.some_inj.0 e in
      (sym (ap (λ (p : ℕ × B). p.0) pair), sym (ap (λ (p : ℕ × B). p.1) pair))

  purge_loop-keeps :
      (cutoff : ℤ) (j : Text) (es : Entries) (b b' : B) (n : ℕ)
      → is_old cutoff j ≡ false
      → purge_loop bolt cutoff es b ≡ some (n, b')
      → bolt.get_value j b' ≡ bolt.get_value j b
  purge_loop-keeps cutoff j [] b b' n young e =
      ap (bolt.get_value j) (purge_loop_end cutoff b b' n e).1
  purge_loop-keeps cutoff j ((k, v) ∷ es) b b' n young e = elim (Bool-cases (is_old cutoff k)) [
    | inl old ↦
        let (b1, m, gone, rest, _) = purge_loop_step cutoff k v es b b' n old e in
        let other : j ≢ k = λ same. let back = ap (is_old cutoff) same in absurd (cc) in
        purge_loop-keeps cutoff j es b1 b' m young rest ∙ laws.get_delete_other k j b b1 gone other
    | inr kept ↦ ap (bolt.get_value j) (purge_loop_stop cutoff k v es b b' n kept e).1
  ]

  -- What is gone stays gone.
  purge_loop-gone :
      (cutoff : ℤ) (j : Text) (es : Entries) (b b' : B) (n : ℕ)
      → bolt.get_value j b ≡ none
      → purge_loop bolt cutoff es b ≡ some (n, b')
      → bolt.get_value j b' ≡ none
  purge_loop-gone cutoff j [] b b' n none_yet e =
      ap (bolt.get_value j) (purge_loop_end cutoff b b' n e).1 ∙ none_yet
  purge_loop-gone cutoff j ((k, v) ∷ es) b b' n none_yet e = elim (Bool-cases (is_old cutoff k)) [
    | inl old ↦
        let (b1, m, gone, rest, _) = purge_loop_step cutoff k v es b b' n old e in
        let still : bolt.get_value j b1 ≡ none = elim (Bool-cases (text_eq j k)) [
          | inl same ↦
              ap (λ (x : Text). bolt.get_value x b1) ((text_eq_iff j k).0 same)
              ∙ laws.get_delete k b b1 gone
          | inr differs ↦
              laws.get_delete_other k j b b1 gone
                (λ e'. let same = (text_eq_iff j k).1 e' in absurd (cc))
              ∙ none_yet
        ] in
        purge_loop-gone cutoff j es b1 b' m still rest
    | inr kept ↦ ap (bolt.get_value j) (purge_loop_stop cutoff k v es b b' n kept e).1 ∙ none_yet
  ]

  purge_loop-removes :
      (cutoff : ℤ) (j w : Text) (es : Entries) (b b' : B) (n : ℕ)
      → IsOrdered es
      → HasRunKeys es
      → Memᴰ (j, w) es
      → is_old cutoff j ≡ true
      → purge_loop bolt cutoff es b ≡ some (n, b')
      → bolt.get_value j b' ≡ none
  purge_loop-removes cutoff j w [] b b' n ordered keys d old e = elim d [ ]
  purge_loop-removes cutoff j w ((k, v) ∷ es) b b' n ordered keys (Memᴰ.head here) old e =
      let same : j ≡ k = ap (λ (p : Text × Text). p.0) here in
      let (b1, m, gone, rest, _) =
        purge_loop_step cutoff k v es b b' n (ap (is_old cutoff) (sym same) ∙ old) e in
      purge_loop-gone cutoff j es b1 b' m
        (ap (λ (x : Text). bolt.get_value x b1) same ∙ laws.get_delete k b b1 gone) rest
  purge_loop-removes cutoff j w ((k, v) ∷ es) b b' n ordered keys (Memᴰ.tail d) old e =
      let first : is_old cutoff k ≡ true =
        is_old-before cutoff k j keys.0 (run_key j w es keys.1 d)
          (ordered_head k j w es ordered.0 d) old in
      let (b1, m, gone, rest, _) = purge_loop_step cutoff k v es b b' n first e in
      purge_loop-removes cutoff j w es b1 b' m ordered.1 keys.1 d old rest

  Option_text_set : IsSet (Option Text)
  Option_text_set = hlevel

  -- A purge that succeeds removes the runs before the cutoff, each of them, and keeps every other one
  -- as it was: the loop that stops at the first key that is not old has missed none, since the keys
  -- are in the order of time.
  pub purge_before_lem :
      (cutoff : ℤ) (db db' : Db B) (b : B) (removed : ℕ) (key value : Text)
      → HasRunKeys (bolt.entries b)
      → db.runs ≡ some b
      → purge_before bolt cutoff db ≡ some (removed, db')
      → Mem (key, value) (bolt.entries b)
      → (b' : B) × (db'.runs ≡ some b')
        × (bolt.get_value key b' ≡ (if is_old cutoff key then none else some value))
  unfolding purge_before
  purge_before_lem cutoff db db' b removed key value keys has e mem =
      let ((n, b'), rest, e1) =
        bind-some (purge_loop bolt cutoff (bolt.entries b) b) _ (removed, db') (rw has at e) in
      let runs' : db'.runs ≡ some b' =
        ap (λ (p : ℕ × Db B). (p.1).runs) (sym (Option.some_inj.0 e1)) in
      (
        b',
        runs',
        elim (Bool-cases (is_old cutoff key)) [
          | inl old ↦ rw old (
              ∥∥₁_elim mem (Option_text_set _ _) (λ d.
                purge_loop-removes cutoff key value (bolt.entries b) b b' n (laws.ordered b) keys d
                  old rest))
          | inr young ↦ rw young (
              purge_loop-keeps cutoff key (bolt.entries b) b b' n young rest
              ∙ laws.get_entry b key value mem)
        ],
      )

-- ===== src/Metrics/Store/Old.antt =====
-- What is old in a bucket of runs: a first part of it, since the keys are in the order of time.
use cmdshape.Base.{
  int_less, ℕ, ◌^◌, ◌<◌, true, false, [], ◌∷◌, Text, text_less, ℤ, pos, negsuc, ◌≡◌, refl, sym, ap,
  ◌∙◌, subst, ltb, length, arith, ◌≤◌, ◌||◌, ◌&&◌, ◌==◌,
}
use mathlib.Core.List.{Memᴰ}
use cmdshape.Metrics.Record.{encode_run_key}
use cmdshape.Metrics.Reads.{IsInt64}
use cmdshape.Metrics.Keys.{
  seconds, encode_run_key-time, encode_run_key_order, length-encode_run_key,
}
use cmdshape.Metrics.Queries.{Entries}
use cmdshape.Metrics.Store.{AreAbove, is_old}

-- A key that `writeRunRecord` and `commitSpoolEvent` put.
abbrev pub IsRunKey : Text → Type 0
IsRunKey key = (t : ℤ) × (n : ℕ) × IsInt64 t × (n < 2 ^ 64) × (key ≡ encode_run_key t n)

abbrev pub HasRunKeys : Entries → Type 0
HasRunKeys [] = Unit
HasRunKeys ((k, v) ∷ es) = IsRunKey k × HasRunKeys es

pub is_old-key :
    (cutoff t : ℤ) (n : ℕ)
    → IsInt64 t
    → is_old cutoff (encode_run_key t n) ≡ int_less (pos (seconds t)) cutoff
unfolding is_old
is_old-key cutoff t n h =
    let (bytes, value) = encode_run_key-time t n h in
    let size : ltb (length (encode_run_key t n)) 8 ≡ false =
      ground (arith, length-encode_run_key t n) in
    rw (size, bytes, value) refl

pub int_less_mono :
    (a b : ℕ) (c : ℤ) → a ≤ b → int_less (pos b) c ≡ true → int_less (pos a) c ≡ true
int_less_mono a b (pos c) h k = ground (arith, h, k)
int_less_mono a b (negsuc c) h k = absurd (cc)

pub before_le : (a b m n : ℕ) → (ltb a b || (a == b && ltb m n)) ≡ true → a ≤ b
before_le a b m n h = ground (arith, h)

-- A key before an old one is old.
pub is_old-before :
    (cutoff : ℤ) (j k : Text)
    → IsRunKey j
    → IsRunKey k
    → text_less j k ≡ true
    → is_old cutoff k ≡ true
    → is_old cutoff j ≡ true
is_old-before cutoff j k (t, n, ht, hn, ej) (t', n', ht', hn', ek) less old =
    let order = encode_run_key_order t t' n n' ht ht' hn hn' in
    let keys : text_less (encode_run_key t n) (encode_run_key t' n') ≡ true =
      ap (λ (x : Text). text_less x (encode_run_key t' n')) (sym ej)
      ∙ ap (text_less j) (sym ek)
      ∙ less in
    let below : seconds t ≤ seconds t' = before_le _ _ _ _ (sym order ∙ keys) in
    let late : int_less (pos (seconds t')) cutoff ≡ true =
      sym (is_old-key cutoff t' n' ht') ∙ ap (is_old cutoff) (sym ek) ∙ old in
    ap (is_old cutoff) ej ∙ is_old-key cutoff t n ht ∙ int_less_mono _ _ cutoff below late

pub ordered_head :
    (k j w : Text) (es : Entries) → AreAbove k es → Memᴰ (j, w) es → text_less k j ≡ true
ordered_head k j w [] h d = elim d [ ]
ordered_head k j w ((i, u) ∷ es) (first, rest) (Memᴰ.head e) =
    ap (text_less k) (ap (λ (p : Text × Text). p.0) e) ∙ first
ordered_head k j w ((i, u) ∷ es) (first, rest) (Memᴰ.tail d) = ordered_head k j w es rest d

pub run_key : (j w : Text) (es : Entries) → HasRunKeys es → Memᴰ (j, w) es → IsRunKey j
run_key j w [] h d = elim d [ ]
run_key j w ((i, u) ∷ es) h (Memᴰ.head e) =
    subst IsRunKey (sym (ap (λ (p : Text × Text). p.0) e)) h.0
run_key j w ((i, u) ∷ es) h (Memᴰ.tail d) = run_key j w es h.1 d

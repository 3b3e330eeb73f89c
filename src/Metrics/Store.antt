-- ===== src/Metrics/Store.antt =====
-- internal/metrics/store.go and spool.go: the transactions on the database. A bucket of the database
-- library is a parameter, `B`, with its operations, `none` where one returns an error; the laws that
-- the code relies on are `IsBolt`. A transaction that fails changes nothing, so its result is an
-- option of the new state. The loops over a cursor meet the entries that the bucket has when they
-- begin.
pub mod Once
pub mod Old
pub mod Purge
use cmdshape.Base.{
  ◌>>=◌, int_less, ℕ, zero, suc, ◌≤◌, Bool, true, false, ◌&&◌, not, List, [], ◌∷◌, Option, none,
  some, Text, ℤ, pos, negsuc, length, take, ltb, text_less, if◌then◌else◌, ◌≡◌, ◌≢◌,
}
use mathlib.Core.List.{Mem}
use cmdshape.Metrics.{RunRecord}
use cmdshape.Metrics.Record.{SourceJson, encode_run_record, encode_run_key, get_bounded_int64}
use cmdshape.Metrics.Queries.{Entries}

pub record Bolt (B : Type 0) : Type 0 where
  pub entries : B → Entries
  pub get_value : Text → B → Option Text
  pub put : Text → Text → B → Option B
  pub delete : Text → B → Option B
  pub next_sequence : B → Option (ℕ × B)

-- The keys in their order: each is below all those behind it.
abbrev pub AreAbove : Text → Entries → Type 0
AreAbove k [] = Unit
AreAbove k ((j, w) ∷ es) = (text_less k j ≡ true) × AreAbove k es

abbrev pub IsOrdered : Entries → Type 0
IsOrdered [] = Unit
IsOrdered ((k, v) ∷ es) = AreAbove k es × IsOrdered es

-- What is documented of a bucket: its entries are what can be got, in the order of the keys; putting
-- and deleting change one key, and the sequence none.
pub record IsBolt {B : Type 0} (bolt : Bolt B) : Type 0 where
  pub ordered : (b : B) → IsOrdered (bolt.entries b)
  pub get_entry : (b : B) (k v : Text) → Mem (k, v) (bolt.entries b) → bolt.get_value k b ≡ some v
  pub get_put : (k v : Text) (b b' : B) → bolt.put k v b ≡ some b' → bolt.get_value k b' ≡ some v
  pub get_put_other :
      (k v j : Text) (b b' : B)
      → bolt.put k v b ≡ some b'
      → j ≢ k
      → bolt.get_value j b' ≡ bolt.get_value j b
  pub get_delete_other :
      (k j : Text) (b b' : B)
      → bolt.delete k b ≡ some b'
      → j ≢ k
      → bolt.get_value j b' ≡ bolt.get_value j b
  pub get_delete : (k : Text) (b b' : B) → bolt.delete k b ≡ some b' → bolt.get_value k b' ≡ none
  pub get_sequence :
      (j : Text) (b b' : B) (n : ℕ)
      → bolt.next_sequence b ≡ some (n, b')
      → bolt.get_value j b' ≡ bolt.get_value j b

-- The two buckets, `none` where one is missing.
pub record Db (B : Type 0) : Type 0 where
  pub runs : Option B
  pub events : Option B

-- `spoolEvent`
pub record SpoolEvent : Type 0 where
  pub id : Text
  pub run : RunRecord

-- The test of the loops that remove what is old: eight bytes of time at least, before the cutoff.
unfoldable pub is_old : ℤ → Text → Bool
is_old cutoff bytes =
    not (ltb (length bytes) 8) && int_less (get_bounded_int64 (take 8 bytes)) cutoff

abbrev pub prune_batch_limit : ℕ
prune_batch_limit = 100

module _ {B : Type 0} (bolt : Bolt B) where
  unfoldable pub put_run : SourceJson → RunRecord → B → Option B
  put_run json rec runs = do
    (seq, counted) ← bolt.next_sequence runs
    bolt.put (encode_run_key rec.timestamp_unix seq) (encode_run_record json rec) counted

  -- `writeRunRecord`
  unfoldable pub write_run_record : SourceJson → RunRecord → Db B → Option (Db B)
  write_run_record json rec db = do
    runs ← db.runs
    runs' ← put_run json rec runs
    some (record db { runs = some runs' })

  -- The loop of `purgeBefore`: how many it removes, and the bucket afterwards.
  unfoldable pub purge_loop : ℤ → Entries → B → Option (ℕ × B)
  purge_loop cutoff [] b = some (0, b)
  purge_loop cutoff ((key, value) ∷ entries) b =
      let go_on = (do
        b' ← bolt.delete key b
        (removed, b'') ← purge_loop cutoff entries b'
        some (suc removed, b'')) in
      if is_old cutoff key then go_on else some (0, b)

  -- `purgeBefore` on a store that is there
  unfoldable pub purge_before : ℤ → Db B → Option (ℕ × Db B)
  purge_before cutoff db = elim (db.runs) [
    | none ↦ some (0, db)
    | some b ↦ do
      (removed, b') ← purge_loop cutoff (bolt.entries b) b
      some (removed, record db { runs = some b' })
  ]

  -- `pruneOldRuns`; the limit counts down.
  unfoldable pub prune_runs_loop : ℤ → ℕ → Entries → B → Option B
  prune_runs_loop cutoff limit [] b = some b
  prune_runs_loop cutoff zero ((key, value) ∷ entries) b = some b
  prune_runs_loop cutoff (suc limit) ((key, value) ∷ entries) b =
      let go_on = (do b' ← bolt.delete key b; prune_runs_loop cutoff limit entries b') in
      if is_old cutoff key then go_on else some b

  unfoldable pub prune_old_runs : ℤ → ℕ → B → Option B
  prune_old_runs cutoff limit b = prune_runs_loop cutoff limit (bolt.entries b) b

  -- `pruneOldEventIDs`, which passes over the entries that it keeps.
  unfoldable pub prune_ids_loop : ℤ → ℕ → Entries → B → Option B
  prune_ids_loop cutoff limit [] b = some b
  prune_ids_loop cutoff zero ((key, value) ∷ entries) b = some b
  prune_ids_loop cutoff (suc limit) ((key, value) ∷ entries) b =
      let go_on = (do b' ← bolt.delete key b; prune_ids_loop cutoff limit entries b') in
      let kept = prune_ids_loop cutoff (suc limit) entries b in
      if is_old cutoff value then go_on else kept

  unfoldable pub prune_old_event_ids : ℤ → ℕ → B → Option B
  prune_old_event_ids cutoff limit b = prune_ids_loop cutoff limit (bolt.entries b) b

  -- `commitSpoolEvent` for an event whose id has not been seen.
  unfoldable pub commit_new : SourceJson → ℤ → SpoolEvent → B → B → Option (Db B)
  commit_new json cutoff event runs events = do
    runs' ← put_run json event.run runs
    events' ← bolt.put event.id (take 8 (encode_run_key event.run.timestamp_unix 0)) events
    runs'' ← prune_old_runs cutoff prune_batch_limit runs'
    events'' ← prune_old_event_ids cutoff prune_batch_limit events'
    some (record { runs = some runs''; events = some events'' })

  unfoldable pub commit_spool_event : SourceJson → ℤ → SpoolEvent → Db B → Option (Db B)
  commit_spool_event json cutoff event db = do
    events ← db.events
    runs ← db.runs
    elim (bolt.get_value event.id events) [
      | some marker ↦ some db
      | none ↦ commit_new json cutoff event runs events
    ]

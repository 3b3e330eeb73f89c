-- ===== src/Metrics/Store/Once.antt =====
-- An event of the spool is counted once, however often it is committed.
use cmdshape.Base.{
  ◌>>=◌, int_less, ℕ, zero, suc, false, [], ◌∷◌, Option, none, some, Text, ℤ, pos, take, ◌≡◌, ◌≢◌,
  refl, sym, ap, ◌∙◌, subst, inl, inr, Bool-cases, Option-cases, ltb, length, arith,
}
use mathlib.Core.Option
use mathlib.Core.List.{Mem, mem-cons_self, mem-cons_of_mem}
use cmdshape.Metrics.Bytes.{put_be, length-put_be}
use cmdshape.Metrics.Record.{SourceJson, encode_run_key}
use cmdshape.Metrics.Reads.{IsInt64}
use cmdshape.Metrics.Keys.{seconds, encode_run_key-time}
use cmdshape.Metrics.Queries.{Entries}
use cmdshape.Metrics.Store.{
  Bolt, IsBolt, Db, SpoolEvent, is_old, put_run, prune_old_runs, prune_ids_loop,
  prune_old_event_ids, prune_batch_limit, commit_new, commit_spool_event,
}

-- The steps of a chain that succeeds.
pub bind-some {ℓ κ} :
    {A : Type ℓ} {B : Type κ} (o : Option A) (f : A → Option B) (b : B)
    → (o >>= f) ≡ some b
    → (a : A) × (o ≡ some a) × (f a ≡ some b)
bind-some none f b e = absurd (cc)
bind-some (some a) f b e = (a, refl, e)

module _ {B : Type 0} (bolt : Bolt B) (laws : IsBolt bolt) where
  -- Every entry with the key has the value.
  abbrev OnlyValue : Text → Text → Entries → Type 0
  OnlyValue j v0 es = (k v : Text) → Mem (k, v) es → k ≡ j → v ≡ v0

  tail-OnlyValue :
      (j v0 k v : Text) (es : Entries) → OnlyValue j v0 ((k, v) ∷ es) → OnlyValue j v0 es
  tail-OnlyValue j v0 k v es h i w m = h i w (mem-cons_of_mem (k, v) m)

  -- Pruning keeps the marker that is not old.
  prune_ids_loop-keeps :
      (cutoff : ℤ) (limit : ℕ) (j v0 : Text) (es : Entries) (b b' : B)
      → is_old cutoff v0 ≡ false
      → OnlyValue j v0 es
      → prune_ids_loop bolt cutoff limit es b ≡ some b'
      → bolt.get_value j b' ≡ bolt.get_value j b
  unfolding prune_ids_loop
  prune_ids_loop-keeps cutoff limit j v0 [] b b' young only e =
      ap (bolt.get_value j) (sym (Option.some_inj.0 e))
  prune_ids_loop-keeps cutoff zero j v0 ((k, v) ∷ es) b b' young only e =
      ap (bolt.get_value j) (sym (Option.some_inj.0 e))
  prune_ids_loop-keeps cutoff (suc limit) j v0 ((k, v) ∷ es) b b' young only e =
      elim (Bool-cases (is_old cutoff v)) [
        | inl old ↦
            let (b1, gone, later) =
              bind-some (bolt.delete k b) (prune_ids_loop bolt cutoff limit es) b'
                (rw (old, prune_ids_loop) at e) in
            let other : j ≢ k = λ same.
              let v_is : v ≡ v0 = only k v mem-cons_self (sym same) in
              let young' = ap (is_old cutoff) v_is in absurd (cc) in
            prune_ids_loop-keeps cutoff limit j v0 es b1 b' young (tail-OnlyValue j v0 k v es only)
              later
            ∙ laws.get_delete_other k j b b1 gone other
        | inr kept ↦
            prune_ids_loop-keeps cutoff (suc limit) j v0 es b b' young
              (tail-OnlyValue j v0 k v es only) (rw (kept, prune_ids_loop) at e)
      ]

  -- A marker is old when its run is.
  marker-young :
      (cutoff t : ℤ)
      → IsInt64 t
      → int_less (pos (seconds t)) cutoff ≡ false
      → is_old cutoff (take 8 (encode_run_key t 0)) ≡ false
  unfolding is_old
  marker-young cutoff t h young =
      let (bytes, value) = encode_run_key-time t 0 h in
      let whole : take 8 (put_be 8 (seconds t)) ≡ put_be 8 (seconds t) = refl in
      let size : ltb (length (put_be 8 (seconds t))) 8 ≡ false =
        ground (arith, length-put_be 8 (seconds t)) in
      rw (bytes, size, value) young

  -- The buckets are there, and the event's id has a marker.
  abbrev HasSeen : SpoolEvent → Db B → Type 0
  HasSeen event db =
      (events : B) × (runs : B) × (marker : Text) × (db.events ≡ some events)
      × (db.runs ≡ some runs)
      × (bolt.get_value event.id events ≡ some marker)

  HasSeen-commit :
      (json : SourceJson) (cutoff : ℤ) (event : SpoolEvent) (db : Db B)
      → HasSeen event db
      → commit_spool_event bolt json cutoff event db ≡ some db
  unfolding commit_spool_event
  HasSeen-commit json cutoff event db (events, runs, marker, has_events, has_runs, seen) =
      simp (has_events, has_runs, seen) refl

  commit_new-HasSeen :
      (json : SourceJson) (cutoff : ℤ) (event : SpoolEvent) (runs events : B) (db' : Db B)
      → IsInt64 event.run.timestamp_unix
      → int_less (pos (seconds event.run.timestamp_unix)) cutoff ≡ false
      → commit_new bolt json cutoff event runs events ≡ some db'
      → HasSeen event db'
  unfolding commit_new prune_old_event_ids
  commit_new-HasSeen json cutoff event runs events db' h young e =
      let marker = take 8 (encode_run_key event.run.timestamp_unix 0) in
      let (runs1, counted, e1) = bind-some (put_run bolt json event.run runs) _ db' e in
      let (events1, marked, e2) = bind-some (bolt.put event.id marker events) _ db' e1 in
      let (runs2, pruned, e3) =
        bind-some (prune_old_runs bolt cutoff prune_batch_limit runs1) _ db' e2 in
      let (events2, kept, e4) =
        bind-some (prune_old_event_ids bolt cutoff prune_batch_limit events1) _ db' e3 in
      let there = laws.get_put event.id marker events events1 marked in
      let still =
        prune_ids_loop-keeps cutoff prune_batch_limit event.id marker (bolt.entries events1) events1
          events2 (marker-young cutoff event.run.timestamp_unix h young)
          (λ k v m same. Option.some_inj.0 (
            sym (laws.get_entry events1 k v m)
            ∙ ap (λ (i : Text). bolt.get_value i events1) same
            ∙ there))
          kept in
      let made = Option.some_inj.0 e4 in
      (
        events2,
        runs2,
        marker,
        ap (λ (d : Db B). d.events) (sym made),
        ap (λ (d : Db B). d.runs) (sym made),
        still ∙ there,
      )

  commit-HasSeen :
      (json : SourceJson) (cutoff : ℤ) (event : SpoolEvent) (runs events : B) (db db' : Db B)
      → IsInt64 event.run.timestamp_unix
      → int_less (pos (seconds event.run.timestamp_unix)) cutoff ≡ false
      → db.events ≡ some events
      → db.runs ≡ some runs
      → commit_spool_event bolt json cutoff event db ≡ some db'
      → HasSeen event db'
  unfolding commit_spool_event
  commit-HasSeen json cutoff event runs events db db' h young has_events has_runs e =
      elim (Option-cases (bolt.get_value event.id events)) [
        | inr (marker, seen) ↦
            let same : db ≡ db' = Option.some_inj.0 (
              sym (
                HasSeen-commit json cutoff event db
                  (events, runs, marker, has_events, has_runs, seen))
              ∙ e) in
            subst (HasSeen event) same (events, runs, marker, has_events, has_runs, seen)
        | inl unseen ↦
            commit_new-HasSeen json cutoff event runs events db' h young
              (rw (has_events, has_runs, unseen, commit_spool_event) at e)
      ]

  -- Committing an event again, as after a crash before its file was removed, changes nothing, if its
  -- run was not older than the cutoff when it was first committed; whatever the cutoff is now.
  pub commit_spool_event_twice :
      (json : SourceJson) (cutoff cutoff' : ℤ) (event : SpoolEvent) (db db' : Db B)
      → IsInt64 event.run.timestamp_unix
      → int_less (pos (seconds event.run.timestamp_unix)) cutoff ≡ false
      → commit_spool_event bolt json cutoff event db ≡ some db'
      → commit_spool_event bolt json cutoff' event db' ≡ some db'
  unfolding commit_spool_event
  commit_spool_event_twice json cutoff cutoff' event db db' h young e =
      let (events, has_events, e1) = bind-some db.events _ db' e in
      let (runs, has_runs, _) = bind-some db.runs _ db' e1 in
      HasSeen-commit json cutoff' event db'
        (commit-HasSeen json cutoff event runs events db db' h young has_events has_runs e)

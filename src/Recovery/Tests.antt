-- ===== src/Recovery/Tests.antt =====
-- Small recordings of failed commands.
use cmdshape.Base.{
  All, Bool, not, true, false, List, [], ◌∷◌, ◌++◌, none, Text, codes, pos, inl, inr, ◌≡◌, refl,
  arith, map, take, select, sort_by,
}
use cmdshape.Contracts.{stdout, stderr}
use cmdshape.Replay.{validate_sequence, validate_from, replayed, read_event_readers}
use cmdshape.Recovery.Order.{IsNewestFirst}
use cmdshape.Recovery.{
  has_entry, Entry, RecoveryEvent, newer, is_candidate, rotate, max_artifacts, store, artifact,
}
use cmdshape.Recovery.Newest.{rotate_lem}
use cmdshape.Recovery.Stored.{as_replay, store_lem}

abbrev entries : List Entry
entries =
    (record { name = codes "3-a"; is_dir = true; mod_time = pos 30 })
    ∷ (record { name = codes "1-b"; is_dir = true; mod_time = pos 10 })
    ∷ (record { name = codes "notes"; is_dir = false; mod_time = pos 5 })
    ∷ (record { name = codes "2-c"; is_dir = true; mod_time = pos 20 })
    ∷ []

rotate_lem_example :
    ((kept : Entry → Bool) × (rotate (pos 15) entries ≡ select kept entries))
    × (sort_by newer (select (is_candidate (pos 15)) (rotate (pos 15) entries))
        ≡ take max_artifacts (sort_by newer (select (is_candidate (pos 15)) entries)))
    × IsNewestFirst (sort_by newer (select (is_candidate (pos 15)) entries))
    × (select (λ e. not (is_candidate (pos 15) e)) (rotate (pos 15) entries)
        ≡ select (λ e. not e.is_dir) entries)
rotate_lem_example =
    rotate_lem (pos 15) entries
      ((refl, (refl, (refl, tt))), ((refl, (refl, tt)), ((refl, tt), (tt, tt))))

abbrev said : RecoveryEvent
said = record { sequence = pos 0; stream = stdout; payload = codes "x" ++ 10 ∷ [] }

abbrev failed_with : RecoveryEvent
failed_with = record { sequence = pos 1; stream = stderr; payload = codes "bad" }

abbrev fresh : Entry
fresh = record { name = codes "4-d"; is_dir = true; mod_time = pos 40 }

numbered : validate_sequence (map as_replay (said ∷ failed_with ∷ [])) ≡ none
unfolding validate_sequence validate_from
numbered = refl

fresh-first : All (λ e. newer fresh e ≡ true) entries
unfolding newer
fresh-first = (refl, (refl, (refl, (refl, tt))))

store_lem_example :
    (out : Text) × (err : Text) × (store (pos 15) fresh (said ∷ failed_with ∷ []) (pos 2) entries
      ≡ artifact out err 5 (rotate (pos 15) (fresh ∷ entries)))
    × (has_entry fresh.name (rotate (pos 15) (fresh ∷ entries)) ≡ true)
    × (read_event_readers out err ≡ replayed (map as_replay (said ∷ failed_with ∷ [])))
store_lem_example =
    store_lem (pos 15) (pos 2) fresh said (failed_with ∷ []) entries refl (omega arith)
      (omega arith) numbered
      (
        (inl refl, (omega arith, (omega arith, tt))),
        ((inr refl, (omega arith, (omega arith, (omega arith, tt)))), tt),
      )
      refl
      (
        (refl, (refl, (refl, (refl, tt)))),
        ((refl, (refl, (refl, tt))), ((refl, (refl, tt)), ((refl, tt), (tt, tt)))),
      )
      fresh-first

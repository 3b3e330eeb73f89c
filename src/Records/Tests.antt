-- ===== src/Records/Tests.antt =====
-- Records of small streams.
use cmdshape.Base.{[], ◌∷◌, ◌++◌, Text, codes, ◌≡◌, refl}
use cmdshape.Records.{drain_stream, drain, read_stream_record, complete_stream_record, read_rest}
use cmdshape.Records.Whole.{IsWhole, drain_stream-IsWhole}

-- A bare carriage return, a pair, and an end without a delimiter.
abbrev progress : Text
progress = codes "1%" ++ (13 ∷ codes "2%" ++ (13 ∷ 10 ∷ codes "end"))

progress_records :
    drain_stream 8 progress
    ≡ (codes "1%" ++ 13 ∷ []) ∷ (codes "2%" ++ 13 ∷ 10 ∷ []) ∷ codes "end" ∷ []
unfolding drain_stream drain read_stream_record complete_stream_record read_rest
progress_records = refl

drain_stream-IsWhole_example : IsWhole 8 progress (drain_stream 8 progress)
drain_stream-IsWhole_example = drain_stream-IsWhole 8 progress

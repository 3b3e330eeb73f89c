-- ===== src/Redact/Tests.antt =====
-- The redaction of small streams.
use cmdshape.Base.{List, [], ◌∷◌, Text, codes, concat, ◌≡◌, refl}
use cmdshape.Redact.{redact_confidential, redact_stream}
use cmdshape.Redact.Streaming.{redact_stream_lem}

abbrev tokens : List Text
tokens = codes "secret" ∷ [] ∷ codes "key" ∷ []

abbrev parts : List Text
parts = codes "a sec" ∷ codes "retke" ∷ codes "y" ∷ []

redact_stream_lem_example :
    concat (redact_stream tokens parts) ≡ redact_confidential (concat parts) tokens
redact_stream_lem_example = redact_stream_lem tokens parts

redacted : redact_confidential (concat parts) tokens ≡ codes "a ******"
unfolding redact_confidential
redacted = refl

-- ===== src/Yaml/Lines/Delimiter.antt =====
-- A line is its content and its delimiter.
use cmdshape.Base.{
  ◌-◌, ◌||◌, [], ◌∷◌, ◌++◌, ◌≡◌, sym, ap, ◌∙◌, Text, length, take, has_suffix, Bool-cases, inl, inr,
  take-append_drop, append-nil, has_suffix_lem, take-append_suffix,
}
use cmdshape.Yaml.Lines.{split_record_delimiter, cr_lf}

-- The content and the delimiter of a line, one behind the other, are the line: nothing of it is
-- lost and nothing is added.
pub split_record_delimiter_lem :
    (line : Text) → (split_record_delimiter line).0 ++ (split_record_delimiter line).1 ≡ line
unfolding split_record_delimiter
split_record_delimiter_lem line = elim (Bool-cases (has_suffix line cr_lf)) [
  | inl crlf ↦
      let (front, e) = has_suffix_lem line cr_lf crlf in
      rw crlf (
        ap (λ (t : Text). take (length t - 2) t ++ cr_lf) e
        ∙ ap (λ (t : Text). t ++ cr_lf) (take-append_suffix front cr_lf)
        ∙ sym e)
  | inr other ↦ elim (Bool-cases (has_suffix line (10 ∷ []) || has_suffix line (13 ∷ []))) [
    | inl e ↦ rw (other, e) (take-append_drop (length line - 1) line)
    | inr e ↦ rw (other, e) (append-nil line)
  ]
]

-- ===== src/Yaml/Render/Summary/Omitted.antt =====
-- The summary of the groups left out counts their lines.
use cmdshape.Base.{
  ℕ, ◌+◌, Bool, ◌&&◌, List, [], ◌∷◌, ◌≡◌, refl, ◌∙◌, Text, text_eq, text_eq_iff, select, length,
  if◌then◌else◌, Bool-cases, inl, inr, arith,
}
use cmdshape.Yaml.Render.Summary.{
  RenderedLine, OmittedGroupSummary, count_key, is_counted, count_lines, goes_first, insert_summary,
  sort_summaries, collect_omitted_group_summaries,
}

-- What the summaries say of a key.
abbrev pub omitted_of : Text → List OmittedGroupSummary → ℕ
omitted_of key [] = 0
omitted_of key (s ∷ ss) = (if text_eq s.key key then s.omitted else 0) + omitted_of key ss

omitted_of-count_key :
    (key k : Text) (ss : List OmittedGroupSummary)
    → omitted_of key (count_key k ss) ≡ (if text_eq k key then 1 else 0) + omitted_of key ss
unfolding count_key
omitted_of-count_key key k [] = ground arith
omitted_of-count_key key k (s ∷ ss) = ground (
  arith,
  omitted_of-count_key key k ss,
  text_eq_iff s.key k,
  text_eq_iff s.key key,
  text_eq_iff k key,
)

omitted_of-insert_summary :
    (key : Text) (s : OmittedGroupSummary) (ss : List OmittedGroupSummary)
    → omitted_of key (insert_summary s ss) ≡ omitted_of key (s ∷ ss)
unfolding insert_summary
omitted_of-insert_summary key s [] = refl
omitted_of-insert_summary key s (x ∷ xs) = elim (Bool-cases (goes_first s x)) [
  | inl first ↦ rw first
  | inr later ↦ rw later (omega (arith, omitted_of-insert_summary key s xs))
]

omitted_of-sort_summaries :
    (key : Text) (ss : List OmittedGroupSummary)
    → omitted_of key (sort_summaries ss) ≡ omitted_of key ss
unfolding sort_summaries
omitted_of-sort_summaries key [] = refl
omitted_of-sort_summaries key (s ∷ ss) =
    omitted_of-insert_summary key s (sort_summaries ss)
    ∙ omega (arith, omitted_of-sort_summaries key ss)

-- A line of the group with the key.
abbrev pub is_line_of : Text → RenderedLine → Bool
is_line_of key l = is_counted l && text_eq l.group_key key

omitted_of-count_lines :
    (key : Text) (ls : List RenderedLine) (counts : List OmittedGroupSummary)
    → omitted_of key (count_lines ls counts)
      ≡ length (select (is_line_of key) ls) + omitted_of key counts
unfolding count_lines
omitted_of-count_lines key [] counts = omega arith
omitted_of-count_lines key (l ∷ ls) counts = elim (Bool-cases (is_counted l)) [
  | inl counted ↦
      let step = omitted_of-count_key key l.group_key counts in
      let rest = omitted_of-count_lines key ls (count_key l.group_key counts) in
      elim (Bool-cases (text_eq l.group_key key)) [
        | inl same ↦ let one = rw same at step in rw (counted, same) (omega (arith, rest, one))
        | inr other ↦
            let none_more = rw other at step in rw (counted, other) (omega (arith, rest, none_more))
      ]
  | inr uncounted ↦ rw uncounted (omitted_of-count_lines key ls counts)
]

-- For every key, the summaries of the lines that the limit leaves out say as many lines as there
-- are items of the group with that key among them.
pub collect_omitted_group_summaries_lem :
    (key : Text) (hidden : List RenderedLine)
    → omitted_of key (collect_omitted_group_summaries hidden)
      ≡ length (select (is_line_of key) hidden)
unfolding collect_omitted_group_summaries
collect_omitted_group_summaries_lem key hidden =
    omitted_of-sort_summaries key (count_lines hidden [])
    ∙ omitted_of-count_lines key hidden []
    ∙ omega arith

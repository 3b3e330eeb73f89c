-- ===== src/Yaml/Render/Summary.antt =====
-- internal/filters/yaml/yaml_filter.go: rendered lines as text, within a limit and with a summary of
-- the groups left out.
pub mod Omitted
pub mod Ended
use cmdshape.Base.{
  ℕ, zero, suc, ◌+◌, ◌-◌, min, Bool, true, false, ◌&&◌, ◌||◌, List, [], ◌∷◌, ◌++◌, map, Option,
  none, some, Text, codes, length, take, drop, is_empty, text_eq, has_prefix, has_suffix,
  replace_all, join, trim_right, ltb, leb, ◌==◌, if◌then◌else◌,
}
use cmdshape.Yaml.Model.{Max, MaxGroupsSummary}
use cmdshape.Yaml.Template.{render_template, itoa}

pub record RenderedLine : Type 0 where
  pub text : Text
  pub group_key : Text
  pub group_item : Bool

abbrev pub unmarked : Text → RenderedLine
unmarked t = record { text = t; group_key = []; group_item = false }

pub record OmittedGroupSummary : Type 0 where
  pub key : Text
  pub omitted : ℕ

abbrev pub newline : Text
newline = 10 ∷ []

abbrev pub ends_line : Text → Bool
ends_line t = has_suffix t newline

unfoldable pub render_rendered_lines : List RenderedLine → Text
render_rendered_lines [] = []
render_rendered_lines (l ∷ ls) =
    l.text ++ ((if ends_line l.text then [] else newline) ++ render_rendered_lines ls)

-- The map of the two names is walked in this order, one of the two that Go may take.
unfoldable pub render_max_print : Text → ℕ → Text → Text
render_max_print template value groups_summary =
    let names = (codes "value", itoa value) ∷ (codes "groups_summary", groups_summary) ∷ [] in
    let rendered = replace_all (render_template template names) (codes " \n") newline in
    if is_empty template then [] else trim_right (λ c. c == 32 || c == 9) rendered

-- `cmp.Compare` on texts: is the first at most the second?
unfoldable pub text_leb : Text → Text → Bool
text_leb [] t = true
text_leb (c ∷ s) [] = false
text_leb (c ∷ s) (d ∷ t) = ltb c d || (c == d && text_leb s t)

unfoldable pub count_key : Text → List OmittedGroupSummary → List OmittedGroupSummary
count_key key [] = record { key = key; omitted = 1 } ∷ []
count_key key (s ∷ ss) =
    let rest = count_key key ss in
    if text_eq s.key key then record s { omitted = suc s.omitted } ∷ ss else s ∷ rest

abbrev pub is_counted : RenderedLine → Bool
is_counted l = l.group_item && (if is_empty l.group_key then false else true)

unfoldable pub count_lines : List RenderedLine → List OmittedGroupSummary → List OmittedGroupSummary
count_lines [] counts = counts
count_lines (l ∷ ls) counts =
    count_lines ls (if is_counted l then count_key l.group_key counts else counts)

-- The larger count first, and of equal counts the lesser key.
abbrev pub goes_first : OmittedGroupSummary → OmittedGroupSummary → Bool
goes_first s t = ltb t.omitted s.omitted || (t.omitted == s.omitted && text_leb s.key t.key)

unfoldable pub insert_summary :
    OmittedGroupSummary → List OmittedGroupSummary → List OmittedGroupSummary
insert_summary s [] = s ∷ []
insert_summary s (x ∷ xs) =
    let rest = insert_summary s xs in if goes_first s x then s ∷ x ∷ xs else x ∷ rest

unfoldable pub sort_summaries : List OmittedGroupSummary → List OmittedGroupSummary
sort_summaries [] = []
sort_summaries (s ∷ ss) = insert_summary s (sort_summaries ss)

unfoldable pub collect_omitted_group_summaries : List RenderedLine → List OmittedGroupSummary
collect_omitted_group_summaries hidden = sort_summaries (count_lines hidden [])

-- The parts that are not empty.
unfoldable pub summary_parts : Text → List OmittedGroupSummary → List Text
summary_parts print [] = []
summary_parts print (s ∷ ss) =
    let part =
      render_template print ((codes "key", s.key) ∷ (codes "count", itoa s.omitted) ∷ []) in
    let rest = summary_parts print ss in if is_empty part then rest else part ∷ rest

unfoldable pub join_summary : MaxGroupsSummary → List OmittedGroupSummary → Text
join_summary summary items =
    let show = min summary.show (length items) in
    let remaining = length items - show in
    elim (summary_parts summary.print_text (take show items)) [
      | [] ↦ []
      | p ∷ ps ↦
          (summary.prefix ++ join (p ∷ ps) summary.delimiter)
          ++ (if ltb 0 remaining && (if is_empty summary.suffix then false else true)
              then render_template summary.suffix ((codes "remaining", itoa remaining) ∷ [])
              else [])
    ]

unfoldable pub render_groups_summary : Option MaxGroupsSummary → List RenderedLine → Text
render_groups_summary none hidden = []
render_groups_summary (some summary) hidden =
    join_summary summary (collect_omitted_group_summaries hidden)

abbrev pub end_line : Text → Text
end_line t = if ends_line t then t else t ++ newline

-- `applyRenderedMax` where there are more lines than the limit.
unfoldable pub render_overflow : List RenderedLine → Max → Text
render_overflow rendered max =
    let visible = trim_right (λ c. c == 10) (render_rendered_lines (take max.count rendered)) in
    let printed =
      render_max_print max.print_text (length rendered - max.count)
        (render_groups_summary max.groups_summary (drop max.count rendered)) in
    if is_empty printed
    then (if is_empty visible then visible else end_line visible)
    else end_line (
        (if is_empty visible || has_prefix printed newline then visible else visible ++ newline)
        ++ printed)

unfoldable pub apply_rendered_max : List RenderedLine → Option Max → Text
apply_rendered_max rendered none = render_rendered_lines rendered
apply_rendered_max rendered (some max) =
    if leb (length rendered) max.count
    then render_rendered_lines rendered
    else render_overflow rendered max

-- ===== src/Yaml/Render/Summary/Ended.antt =====
-- What is printed for the groups ends its last line.
use mathlib.Core.List.{reverse, reverse-append}
use cmdshape.Base.{
  ◌-◌, Bool, true, false, ◌||◌, List, [], ◌∷◌, ◌++◌, Option, none, some, ◌≡◌, refl, sym, subst, ◌⊎◌,
  inl, inr, Text, take, drop, length, is_empty, has_prefix, ◌==◌, leb, trim_right, if◌then◌else◌,
  Bool-cases, append-nil, arith,
}
use cmdshape.Yaml.Model.{Max}
use cmdshape.Yaml.Render.Summary.{
  RenderedLine, newline, ends_line, end_line, render_rendered_lines, render_max_print,
  render_groups_summary, render_overflow, apply_rendered_max,
}

has_prefix-append : (s t p : Text) → has_prefix s p ≡ true → has_prefix (s ++ t) p ≡ true
has_prefix-append [] t [] h = refl
has_prefix-append (c ∷ s) t [] h = refl
has_prefix-append [] t (d ∷ p) h = absurd (cc)
has_prefix-append (c ∷ s) t (d ∷ p) h = ground (arith, has_prefix-append s t p)

ends_line-append : (s t : Text) → ends_line t ≡ true → ends_line (s ++ t) ≡ true
ends_line-append s t h =
    subst (λ (r : Text). has_prefix r newline ≡ true) (sym (reverse-append s t))
      (has_prefix-append (reverse t) (reverse s) newline h)

-- Nothing, or a text whose last line is ended.
abbrev pub IsEnded : Text → Type 0
IsEnded t = (t ≡ []) ⊎ (ends_line t ≡ true)

ends_line-end_line : (t : Text) → ends_line (end_line t) ≡ true
ends_line-end_line t = elim (Bool-cases (ends_line t)) [
  | inl ended ↦ rw ended ended
  | inr open_end ↦ rw open_end (ends_line-append t newline refl)
]

render_rendered_lines-IsEnded : (ls : List RenderedLine) → IsEnded (render_rendered_lines ls)
unfolding render_rendered_lines
render_rendered_lines-IsEnded [] = inl refl
render_rendered_lines-IsEnded (l ∷ ls) = inr (
    with_rest (ends_line l.text) refl (render_rendered_lines ls) (render_rendered_lines-IsEnded ls))
  where
    with_rest :
        (ended : Bool)
        → ends_line l.text ≡ ended
        → (rest : Text) → IsEnded rest
        → ends_line (l.text ++ ((if ended then [] else newline) ++ rest)) ≡ true
    with_rest true e rest (inr h) = ends_line-append l.text rest h
    with_rest false e rest (inr h) =
        ends_line-append l.text (newline ++ rest) (ends_line-append newline rest h)
    with_rest true e rest (inl none_left) = rw (none_left, append-nil l.text) e
    with_rest false e rest (inl none_left) = rw none_left (ends_line-append l.text newline refl)

render_overflow-IsEnded :
    (rendered : List RenderedLine) (max : Max) → IsEnded (render_overflow rendered max)
unfolding render_overflow
render_overflow-IsEnded rendered max =
    let visible = trim_right (λ c. c == 10) (render_rendered_lines (take max.count rendered)) in
    let printed =
      render_max_print max.print_text (length rendered - max.count)
        (render_groups_summary max.groups_summary (drop max.count rendered)) in
    ended visible printed (
      (if is_empty visible || has_prefix printed newline then visible else visible ++ newline)
      ++ printed)
  where
    ended :
        (visible printed joined : Text)
        → IsEnded (
            if is_empty printed
            then (if is_empty visible then visible else end_line visible)
            else end_line joined)
    ended [] [] joined = inl refl
    ended (c ∷ s) [] joined = inr (ends_line-end_line (c ∷ s))
    ended visible (c ∷ s) joined = inr (ends_line-end_line joined)

-- Whatever the limit on the lines that a scope's groups print, what is printed is nothing at all or
-- ends with the end of a line, so that what is appended behind begins a line.
pub apply_rendered_max-IsEnded :
    (rendered : List RenderedLine) (max : Option Max) → IsEnded (apply_rendered_max rendered max)
unfolding apply_rendered_max
apply_rendered_max-IsEnded rendered none = render_rendered_lines-IsEnded rendered
apply_rendered_max-IsEnded rendered (some max) =
    elim (Bool-cases (leb (length rendered) max.count)) [
      | inl all ↦ rw (all, IsEnded) (render_rendered_lines-IsEnded rendered)
      | inr more ↦ rw (more, IsEnded) (render_overflow-IsEnded rendered max)
    ]

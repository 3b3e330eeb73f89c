-- ===== src/Yaml/Render/Limit.antt =====
-- The limit on the lines that a group shows.
use cmdshape.Base.{
  ℕ, suc, ◌+◌, ◌≤◌, Bool, true, false, List, [], ◌∷◌, Option, none, some, ◌≡◌, refl, ap, subst, ◌≢◌,
  Text, length, if◌then◌else◌, leb, trim_right, arith,
}
use cmdshape.Contracts.{Action, ActionKind, keep, emit, ignore, replace}
use cmdshape.Yaml.Model.{Variables, Rules, Max, GroupItem}
use cmdshape.Yaml.Lines.{base_action_for_line, is_ignore, at_max}
use cmdshape.Yaml.Render.{
  is_newline, ItemResult, shown, dropped, limited, render_group_item, RenderedItems, add_result,
  count_shown, render_items,
}
use cmdshape.Yaml.Render.Summary.{RenderedLine}

-- A line is shown only below the limit, and counted as hidden only at it.
abbrev pub IsAllowed : Bool → ItemResult → Type 0
IsAllowed full (shown t) = full ≡ false
IsAllowed full dropped = Unit
IsAllowed full limited = full ≡ true

render_group_item-IsAllowed :
    (rules : Rules) (line : Text) (vars : Variables) (emitted : ℕ)
    → IsAllowed (at_max rules.max emitted) (render_group_item (some rules) line vars emitted).0
unfolding render_group_item
render_group_item-IsAllowed rules line vars emitted =
    let (action, after) = base_action_for_line rules line (trim_right is_newline line) vars in
    by_test (is_ignore action.kind) (at_max rules.max emitted) action after
  where
    text_of : Action → ItemResult
    text_of action = elim action.kind [
      | replace ↦ shown action.output
      | keep ↦ shown line
      | emit ↦ shown line
      | ignore ↦ dropped
    ]

    by_kind :
        (kind : ActionKind) (output : Text)
        → IsAllowed false (elim kind [
          | replace ↦ shown output
          | keep ↦ shown line
          | emit ↦ shown line
          | ignore ↦ dropped
        ])
    by_kind replace output = refl
    by_kind keep output = refl
    by_kind emit output = refl
    by_kind ignore output = tt

    by_test :
        (ignored full : Bool) (action : Action) (after : Variables)
        → IsAllowed full (
            let chosen : ItemResult × Variables =
              if ignored
              then (dropped, after)
              else if full
              then (limited, after)
              else (text_of action, after) in
            chosen.0)
    by_test true full action after = tt
    by_test false true action after = refl
    by_test false false action after = by_kind action.kind action.output

-- What the limit says of the items rendered behind the first `emitted`.
abbrev pub IsLimited : ℕ → ℕ → ℕ → RenderedItems → Type 0
IsLimited most emitted total r =
    (emitted + length r.items ≤ most)
    × (r.hidden ≢ 0 → emitted + length r.items ≡ most)
    × (length r.items + r.hidden ≤ total)

count_shown-le :
    (most emitted : ℕ) (result : ItemResult)
    → IsAllowed (leb most emitted) result
    → emitted ≤ most
    → count_shown result emitted ≤ most
count_shown-le most emitted (shown t) below h = ground arith
count_shown-le most emitted dropped below h = h
count_shown-le most emitted limited below h = h

add_result-IsLimited :
    (most emitted total : ℕ) (mark : Text → RenderedLine) (result : ItemResult)
    → IsAllowed (leb most emitted) result
    → (r : RenderedItems) → IsLimited most (count_shown result emitted) total r
    → IsLimited most emitted (suc total) (add_result mark result r)
add_result-IsLimited most emitted total mark (shown t) below r (within, reached, all) =
    (omega (arith, within), λ hidden. omega (arith, reached hidden), omega (arith, all))
add_result-IsLimited most emitted total mark dropped below r (within, reached, all) =
    (within, reached, omega (arith, all))
add_result-IsLimited most emitted total mark limited full r (within, reached, all) =
    let at_most : most ≤ emitted = ground arith in
    (within, λ hidden. omega (arith, within, at_most), omega (arith, all))

-- The items of a group that has a limit on its lines: no more are shown than the limit allows, an
-- item is counted as hidden only where the limit is reached, and the items shown and those hidden
-- are together no more than there are items.
pub render_items-IsLimited :
    (rules : Rules) (m : Max) (mark : Text → RenderedLine) (items : List GroupItem)
    → rules.max ≡ some m
    → (shared : Option Variables) (emitted : ℕ) → emitted ≤ m.count
    → IsLimited m.count emitted (length items) (render_items (some rules) mark items shared emitted)
unfolding render_items
render_items-IsLimited rules m mark [] limit shared emitted h =
    (omega arith, λ hidden. absurd (hidden refl), omega arith)
render_items-IsLimited rules m mark (item ∷ items) limit shared emitted h =
    let vars : Variables = elim shared [ some v ↦ v | none ↦ item.vars ] in
    let (result, after) = render_group_item (some rules) item.line vars emitted in
    let allowed =
      subst (λ b. IsAllowed b result) (ap (λ o. at_max o emitted) limit)
        (render_group_item-IsAllowed rules item.line vars emitted) in
    add_result-IsLimited m.count emitted (length items) mark result allowed _ (
      render_items-IsLimited rules m mark items limit
        (elim shared [ some v ↦ some after | none ↦ none ]) (count_shown result emitted)
        (count_shown-le m.count emitted result allowed h))

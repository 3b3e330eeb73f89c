-- ===== src/Yaml/Groups/Stored.antt =====
-- A line that the groups of a scope take is stored, or opens a section.
use cmdshape.Base.{
  ℕ, ◌+◌, ◌<◌, ◌⊎◌, Bool, true, false, List, Option, none, some, ◌≡◌, sym, subst, inl, inr, Text,
  if◌then◌else◌, Option-cases, arith,
}
use cmdshape.Yaml.Model.{ActiveBoundary, Group, Scope}
use cmdshape.Yaml.Lines.{split_record_delimiter}
use cmdshape.Yaml.Groups.{
  start_from, start_boundary_group, modify_at, add_to_section, append_boundary_line, collect_first,
  collect_in_groups, take_line, has_no_group, collect_group_line,
}
use cmdshape.Yaml.Groups.Counted.{
  stored_sum, sections_at, modify_at-add_to_section, IsOpened, start_from-IsOpened, IsCollected,
  collect_first-IsCollected,
}

-- The section that takes the lines, if any, is there.
abbrev pub IsWithin : List Group → Option ActiveBoundary → Type 0
IsWithin gs none = Unit
IsWithin gs (some a) = a.section_index < sections_at gs a.group_index

abbrev pub IsInRange : Scope → Type 0
IsInRange c = IsWithin c.groups c.active_boundary

-- What a scope that took a line is to the scope before: either one more section has been opened,
-- with no line in it, or the line is stored once; by every measure of the lines.
abbrev pub IsStored : Scope → Text → Option Scope → Type 0
IsStored c content none = Unit
IsStored c content (some c') =
    IsInRange c'
    × (((f : Text → ℕ) (n : ℕ) → stored_sum f n c'.groups ≡ n + stored_sum f n c.groups)
        ⊎ ((f : Text → ℕ) (n : ℕ) → stored_sum f n c'.groups ≡ f content + stored_sum f n c.groups))

start_boundary_group-IsStored :
    (c : Scope) (content : Text) → IsStored c content (start_boundary_group c content)
unfolding start_boundary_group
start_boundary_group-IsStored c content =
    from_start (start_from 0 c.groups content) (λ f n. start_from-IsOpened f n 0 c.groups content)
  where
    from_start :
        (found : Option (List Group × ActiveBoundary))
        → ((f : Text → ℕ) (n : ℕ) → IsOpened f n 0 c.groups found)
        → IsStored c content (elim found [
          | some (groups, active) ↦
              some (record c { groups = groups; active_boundary = some active })
          | none ↦ none
        ])
    from_start none h = tt
    from_start (some (groups, active)) h = (
      let (more, (j, at, inside)) = h (λ t. 0) 0 in
          let at' : j ≡ active.group_index = omega (arith, at) in
          subst (λ k. active.section_index < sections_at groups k) at' inside,
      inl (λ f n. (h f n).0),
    )

append_boundary_line-IsStored :
    (c : Scope) (content : Text) → IsInRange c → IsStored c content (append_boundary_line c content)
unfolding append_boundary_line
append_boundary_line-IsStored c content h = elim (Option-cases c.active_boundary) [
  | inl e ↦ rw (e, IsStored) tt
  | inr (a, e) ↦
      let added = λ (f : Text → ℕ) (n : ℕ).
        modify_at-add_to_section f n c.groups a.group_index a.section_index content in
      let same = (added (λ t. 0) 0).0 in
      let inside = subst (IsWithin c.groups) e h in
      rw (e, IsStored)
        (
          subst
              (IsWithin (modify_at a.group_index (add_to_section a.section_index content) c.groups))
              (sym e) (subst (λ n. a.section_index < n) (sym (same a.group_index)) inside),
          inr (λ f n. (added f n).1 inside),
        )
]

collect_in_groups-IsStored :
    (c : Scope) (content : Text) → IsInRange c → IsStored c content (collect_in_groups c content)
unfolding collect_in_groups
collect_in_groups-IsStored c content h =
    from_first (collect_first c.groups content)
      (λ f n. collect_first-IsCollected f n c.groups content)
  where
    stays :
        (gs : List Group)
        → ((k : ℕ) → sections_at gs k ≡ sections_at c.groups k)
        → (active : Option ActiveBoundary) → IsWithin c.groups active
        → IsWithin gs active
    stays gs same none inside = tt
    stays gs same (some a) inside =
        subst (λ n. a.section_index < n) (sym (same a.group_index)) inside

    from_first :
        (found : Option (List Group))
        → ((f : Text → ℕ) (n : ℕ) → IsCollected f n content c.groups found)
        → IsStored c content
            (elim found [ some groups ↦ some (record c { groups = groups }) | none ↦ none ])
    from_first none taken = tt
    from_first (some gs) taken =
        (stays gs (taken (λ t. 0) 0).1 c.active_boundary h, inr (λ f n. (taken f n).0))

-- In a scope whose open section is there, a line that the groups take either opens one section, with
-- no line in it, or is stored, without its delimiter, as one more line of an item of the groups; by
-- every measure of the lines nothing else is stored and no line is lost. And the open section of the
-- scope behind, if any, is there again.
pub collect_group_line-IsStored :
    (c : Scope) (line : Text)
    → IsInRange c
    → IsStored c (split_record_delimiter line).0 (collect_group_line c line)
unfolding collect_group_line take_line
collect_group_line-IsStored c line h =
    guarded (has_no_group c.groups) (take_line c content)
      (first (start_boundary_group c content) (start_boundary_group-IsStored c content))
  where
    content : Text
    content = (split_record_delimiter line).0

    second :
        (appended : Option Scope)
        → IsStored c content appended
        → IsStored c content
            (elim appended [ some scope ↦ some scope | none ↦ collect_in_groups c content ])
    second none h' = collect_in_groups-IsStored c content h
    second (some scope) h' = h'

    first :
        (started : Option Scope)
        → IsStored c content started
        → IsStored c content (elim started [
          | some scope ↦ some scope
          | none ↦ elim (append_boundary_line c content) [
            | some scope ↦ some scope
            | none ↦ collect_in_groups c content
          ]
        ])
    first none h' =
        second (append_boundary_line c content) (append_boundary_line-IsStored c content h)
    first (some scope) h' = h'

    guarded :
        (no_group : Bool) (taken : Option Scope)
        → IsStored c content taken
        → IsStored c content (if no_group then none else taken)
    guarded true taken h' = tt
    guarded false taken h' = h'

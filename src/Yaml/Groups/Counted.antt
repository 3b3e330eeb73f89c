-- ===== src/Yaml/Groups/Counted.antt =====
-- What the groups of a scope have stored, and how their operations change it.
use cmdshape.Base.{
  ℕ, zero, suc, ◌+◌, ◌<◌, List, [], ◌∷◌, ◌++◌, Option, none, some, ◌≡◌, refl, sym, ap, subst, inl,
  inr, Text, length, length-append, Bool-cases, Option-cases, text_eq, arith,
}
use cmdshape.Yaml.Model.{
  Variables, GroupItem, BoundarySection, GroupMode, collecting, boundary, ActiveBoundary, Group,
}
use cmdshape.Yaml.Groups.{
  add_item, collect, starts_here, start_from, modify_at, add_line, add_to_section, collects_here,
  collect_first,
}

-- A measure `f` of a line, summed over the lines of the items.
abbrev pub item_sum : (Text → ℕ) → List GroupItem → ℕ
item_sum f [] = 0
item_sum f (item ∷ items) = f item.line + item_sum f items

-- The lines that collecting has stored.
abbrev pub collected_sum : (Text → ℕ) → List (Text × List GroupItem) → ℕ
collected_sum f [] = 0
collected_sum f ((k, items) ∷ rest) = item_sum f items + collected_sum f rest

-- A section counts `n`, and its lines by their measure.
abbrev pub section_sum : (Text → ℕ) → ℕ → List BoundarySection → ℕ
section_sum f n [] = 0
section_sum f n (s ∷ ss) = n + item_sum f s.items + section_sum f n ss

abbrev pub stored_sum : (Text → ℕ) → ℕ → List Group → ℕ
stored_sum f n [] = 0
stored_sum f n (g ∷ gs) = collected_sum f g.items + section_sum f n g.sections + stored_sum f n gs

-- The number of the lines and of the sections.
abbrev pub stored_lines : List Group → ℕ
stored_lines gs = stored_sum (λ t. 1) 1 gs

item_sum-snoc :
    (f : Text → ℕ) (items : List GroupItem) (item : GroupItem)
    → item_sum f (items ++ item ∷ []) ≡ f item.line + item_sum f items
item_sum-snoc f [] item = refl
item_sum-snoc f (x ∷ items) item = omega (arith, item_sum-snoc f items item)

-- The number of sections of the group at an index, 0 out of range.
abbrev pub sections_at : List Group → ℕ → ℕ
sections_at [] i = 0
sections_at (g ∷ gs) zero = length g.sections
sections_at (g ∷ gs) (suc i) = sections_at gs i

add_item_lem :
    (f : Text → ℕ) (items : List (Text × List GroupItem)) (key : Text) (item : GroupItem)
    → collected_sum f (add_item items key item) ≡ f item.line + collected_sum f items
unfolding add_item
add_item_lem f [] key item = omega arith
add_item_lem f ((k, is) ∷ rest) key item = elim (Bool-cases (text_eq k key)) [
  | inl same ↦ rw same (omega (arith, item_sum-snoc f is item))
  | inr other ↦ rw other (omega (arith, add_item_lem f rest key item))
]

modify_at-add_line :
    (f : Text → ℕ) (n : ℕ) (ss : List BoundarySection) (j : ℕ) (content : Text)
    → (length (modify_at j (add_line content) ss) ≡ length ss)
      × (j < length ss
          → section_sum f n (modify_at j (add_line content) ss) ≡ f content + section_sum f n ss)
unfolding modify_at
modify_at-add_line f n [] j content = (refl, λ h. absurd (omega (arith, h)))
modify_at-add_line f n (s ∷ ss) zero content =
    (refl, λ h. omega (arith, item_sum-snoc f s.items (record { line = content; vars = s.vars })))
modify_at-add_line f n (s ∷ ss) (suc j) content =
    let (same, more) = modify_at-add_line f n ss j content in
    (omega (arith, same), λ h. omega (arith, more (omega (arith, h))))

pub modify_at-add_to_section :
    (f : Text → ℕ) (n : ℕ) (gs : List Group) (i j : ℕ) (content : Text)
    → ((k : ℕ) → sections_at (modify_at i (add_to_section j content) gs) k ≡ sections_at gs k)
      × (j < sections_at gs i
          → stored_sum f n (modify_at i (add_to_section j content) gs)
            ≡ f content + stored_sum f n gs)
unfolding modify_at
modify_at-add_to_section f n [] i j content = (λ k. refl, λ h. absurd (omega (arith, h)))
modify_at-add_to_section f n (g ∷ gs) zero j content = (
  λ k. elim k as (λ k. sections_at (add_to_section j content g ∷ gs) k ≡ sections_at (g ∷ gs) k) [
    | zero ↦ (modify_at-add_line f n g.sections j content).0
    | suc k' ↦ refl
  ],
  λ h. omega (arith, (modify_at-add_line f n g.sections j content).1 h),
)
modify_at-add_to_section f n (g ∷ gs) (suc i) j content =
    let (same, more) = modify_at-add_to_section f n gs i j content in
    (
      λ k.
          elim k
            as (λ k.
              sections_at (g ∷ modify_at i (add_to_section j content) gs) k
              ≡ sections_at (g ∷ gs) k) [ zero ↦ refl | suc k' ↦ same k' ],
      λ h. omega (arith, more h),
    )

section_sum-snoc :
    (f : Text → ℕ) (n : ℕ) (ss : List BoundarySection) (vars : Variables)
    → section_sum f n (ss ++ record { vars = vars; items = [] } ∷ []) ≡ n + section_sum f n ss
section_sum-snoc f n [] vars = omega arith
section_sum-snoc f n (s ∷ ss) vars = omega (arith, section_sum-snoc f n ss vars)

-- A start opens a section in the group that the index names, behind the others.
abbrev pub IsOpened :
    (Text → ℕ) → ℕ → ℕ → List Group → Option (List Group × ActiveBoundary) → Type 0
IsOpened f n i gs none = Unit
IsOpened f n i gs (some (gs', a)) =
    (stored_sum f n gs' ≡ n + stored_sum f n gs)
    × ((j : ℕ) × (a.group_index ≡ i + j) × (a.section_index < sections_at gs' j))

pub start_from-IsOpened :
    (f : Text → ℕ) (n i : ℕ) (gs : List Group) (content : Text)
    → IsOpened f n i gs (start_from i gs content)
unfolding start_from
start_from-IsOpened f n i [] content = tt
start_from-IsOpened f n i (g ∷ gs) content = elim (Option-cases (starts_here g content)) [
  | inr (values, e) ↦
      rw (e, IsOpened)
        (
          omega (arith, section_sum-snoc f n g.sections values),
          (
            0,
            omega arith,
            omega (arith, length-append g.sections (record { vars = values; items = [] } ∷ [])),
          ),
        )
  | inl e ↦
      rw (e, IsOpened)
        (behind (start_from (suc i) gs content) (start_from-IsOpened f n (suc i) gs content))
]
  where
    behind :
        (found : Option (List Group × ActiveBoundary))
        → IsOpened f n (suc i) gs found
        → IsOpened f n i
            (g ∷ gs)
            (elim found [ some (rest, active) ↦ some (g ∷ rest, active) | none ↦ none ])
    behind none h = tt
    behind (some (rest, active)) (more, (j, at, inside)) =
        (omega (arith, more), (suc j, omega (arith, at), inside))

-- A group that collects a line stores it; no section changes.
abbrev pub IsCollected : (Text → ℕ) → ℕ → Text → List Group → Option (List Group) → Type 0
IsCollected f n content gs none = Unit
IsCollected f n content gs (some gs') =
    (stored_sum f n gs' ≡ f content + stored_sum f n gs)
    × ((k : ℕ) → sections_at gs' k ≡ sections_at gs k)

abbrev pub IsTaken : (Text → ℕ) → Text → Group → Option Group → Type 0
IsTaken f content g none = Unit
IsTaken f content g (some g') =
    (collected_sum f g'.items ≡ f content + collected_sum f g.items) × (g'.sections ≡ g.sections)

collect-IsTaken :
    (f : Text → ℕ) (g : Group) (content : Text) → IsTaken f content g (collect g content)
unfolding collect
collect-IsTaken f g content = elim (Option-cases g.regex) [
  | inl e ↦ rw e tt
  | inr (re, e) ↦ elim (Option-cases (re.find_string_submatch content)) [
    | inl unmatched ↦ rw (e, unmatched) tt
    | inr (found, matched) ↦ rw (e, matched) (add_item_lem f g.items _ _, refl)
  ]
]

collects_here-IsTaken :
    (f : Text → ℕ) (g : Group) (content : Text) → IsTaken f content g (collects_here g content)
unfolding collects_here
collects_here-IsTaken f g content = by_mode g.mode
  where
    by_mode :
        (mode : GroupMode)
        → IsTaken f content g (elim mode [ boundary ↦ none | collecting ↦ collect g content ])
    by_mode collecting = collect-IsTaken f g content
    by_mode boundary = tt

pub collect_first-IsCollected :
    (f : Text → ℕ) (n : ℕ) (gs : List Group) (content : Text)
    → IsCollected f n content gs (collect_first gs content)
unfolding collect_first
collect_first-IsCollected f n [] content = tt
collect_first-IsCollected f n (g ∷ gs) content = elim (Option-cases (collects_here g content)) [
  | inr (g', e) ↦
      let (more, same) = subst (IsTaken f content g) e (collects_here-IsTaken f g content) in
      rw (e, IsCollected)
        (
          subst
              (λ (ss : List BoundarySection).
                collected_sum f g'.items + section_sum f n ss + stored_sum f n gs
                ≡ f content + stored_sum f n (g ∷ gs))
              (sym same) (omega (arith, more)),
          λ k. elim k as (λ k. sections_at (g' ∷ gs) k ≡ sections_at (g ∷ gs) k) [
            | zero ↦ ap (λ (ss : List BoundarySection). length ss) same
            | suc k' ↦ refl
          ],
        )
  | inl e ↦
      rw (e, IsCollected)
        (behind (collect_first gs content) (collect_first-IsCollected f n gs content))
]
  where
    behind :
        (found : Option (List Group))
        → IsCollected f n content gs found
        → IsCollected f n content
            (g ∷ gs)
            (elim found [ some rest ↦ some (g ∷ rest) | none ↦ none ])
    behind none h = tt
    behind (some rest) (more, same) = (
      omega (arith, more),
      λ k. elim k as (λ k. sections_at (g ∷ rest) k ≡ sections_at (g ∷ gs) k) [
        | zero ↦ refl
        | suc k' ↦ same k'
      ],
    )

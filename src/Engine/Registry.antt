-- ===== src/Engine/Registry.antt =====
-- internal/engine/registry.go: the filters by tool name. The map is an association list with one
-- entry for a key; `A` stands for the filters, and `clone` is `CloneFilter` for a filter that has
-- one and the identity for any other. The audit lines that `Resolve` writes are left out.
pub mod Laws
use cmdshape.Base.{
  Bool, true, false, ◌||◌, List, [], ◌∷◌, Option, none, some, Text, text_eq, is_empty, trim_space,
  if◌then◌else◌,
}
use cmdshape.Contracts.{Command}

abbrev pub Registry : Type 0 → Type 0
Registry A = List (Text × A)

module _ {A : Type 0} where
  unfoldable pub lookup : Text → Registry A → Option A
  lookup k [] = none
  lookup k ((j, a) ∷ r) = if text_eq j k then some a else lookup k r

  unfoldable pub insert : Text → A → Registry A → Registry A
  insert k a [] = (k, a) ∷ []
  insert k a ((j, b) ∷ r) = if text_eq j k then (k, a) ∷ r else (j, b) ∷ insert k a r

  -- `none` is the nil filter.
  unfoldable pub register : Text → Option A → Registry A → Registry A
  register tool none r = r
  register tool (some a) r = if is_empty (trim_space tool) then r else insert (trim_space tool) a r

  unfoldable pub register_all : List (Text × Option A) → Registry A → Registry A
  register_all [] r = r
  register_all ((tool, filter) ∷ filters) r = register_all filters (register tool filter r)

  -- `none` is the nil registry.
  unfoldable pub has : Text → Option (Registry A) → Bool
  has tool none = false
  has tool (some r) = elim (lookup (trim_space tool) r) [ none ↦ false | some a ↦ true ]

  -- `none` is the answer `Passthrough{}`.
  unfoldable pub resolve : (A → A) → Command → Option (Registry A) → Option A
  resolve clone c none = none
  resolve clone c (some r) = elim (lookup (trim_space c.tool) r) [
    | none ↦ none
    | some a ↦ some (clone a)
  ]

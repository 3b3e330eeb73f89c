-- ===== src/Engine/Registry/Laws.antt =====
-- What `Resolve` finds after `Register`.
use cmdshape.Base.{
  [], ◌∷◌, Option, none, some, Text, text_eq, text_eq_iff, is_empty, trim_space, if◌then◌else◌, ◌≡◌,
  refl, arith,
}
use cmdshape.Contracts.{Command}
use cmdshape.Engine.Registry.{Registry, lookup, insert, register, resolve}

module _ {A : Type 0} where
  lookup-insert :
      (k j : Text) (a : A) (r : Registry A)
      → lookup j (insert k a r) ≡ (if text_eq k j then some a else lookup j r)
  unfolding lookup insert
  lookup-insert k j a [] = refl
  lookup-insert k j a ((i, b) ∷ r) =
      ground (arith, text_eq_iff k j, text_eq_iff i k, text_eq_iff i j, lookup-insert k j a r)

  -- A filter registered under a name that is not blank is what a command whose tool has that name,
  -- up to surrounding space, resolves to, as a clone; other commands resolve as before. Under a
  -- blank name, or without a filter, nothing is registered.
  pub resolve-register :
      (clone : A → A) (tool : Text) (filter : Option A) (c : Command) (r : Registry A)
      → resolve clone c (some (register tool filter r)) ≡ elim filter [
        | none ↦ resolve clone c (some r)
        | some a ↦
            if is_empty (trim_space tool)
            then resolve clone c (some r)
            else if text_eq (trim_space tool) (trim_space c.tool)
            then some (clone a)
            else resolve clone c (some r)
      ]
  unfolding register resolve
  resolve-register clone tool none c r = refl
  resolve-register clone tool (some a) c r =
      ground (arith, lookup-insert (trim_space tool) (trim_space c.tool) a r)

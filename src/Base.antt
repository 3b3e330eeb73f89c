-- ===== src/Base.antt =====
-- The names that the other modules share: the libraries', passed on, and those of the children.
mod Tests
mod Lists
mod Strings
mod Trim
mod Trimmed
mod TextOrder
mod Sort
mod Maps
mod IntOrder
pub use IntOrder.*
mod Sorted
pub use Sorted.*
pub use Maps.*
pub use TextOrder.*
pub use Sort.*
pub use Trimmed.{trim_space-trim_space}
pub use Tests.*
pub use Lists.*
pub use Strings.*
unfoldable pub use Trim.{is_space, trim_space, lower_rune, to_lower}
pub use Trim.{trim_left, trim_right}
pub use Prim.Native.Nat.{ℕ, zero, suc, ◌+◌, ◌-◌, ◌*◌, ◌/◌, ◌%◌, ◌^◌, ◌≤◌, ◌<◌, min, max}
pub use mathlib.Core.Path.{◌≡◌, refl, sym, ap, ◌∙◌, subst, ◌≡⟨◌⟩◌, ◌∎}
pub use mathlib.Core.Logic.{◌≢◌, ◌↔◌, ◌⊎◌, inl, inr}
pub use mathlib.Core.Bool.{Bool, true, false, ◌&&◌, ◌||◌, not}
pub use mathlib.Core.Option.{Option, none, some}
pub use mathlib.Core.List.{List, [], ◌∷◌, ◌++◌, map, append-nil, append_assoc, Perm}
pub use native.Mathlib.Omega.{arith}

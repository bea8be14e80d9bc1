-- ===== src/Base.antt =====
-- The names that the modules share: the libraries', passed on, and those of the children.
mod Equality
mod Outcome
mod Lists
mod Members
pub mod Int
pub mod Text
unfoldable pub use Equality.*
unfoldable pub use Outcome.*
unfoldable pub use Lists.*
pub use Members.*
pub use Int.{ℤ, pos, negsuc}
unfoldable pub use Int.{pos_part, neg_part, ◌+ℤ◌, ◌≤ℤ◌, ◌<ℤ◌, neg_ℤ, leb_ℤ, ltb_ℤ, min_ℤ, max_ℤ}
pub use Prim.Native.Nat.{ℕ, zero, suc, ◌+◌, ◌-◌, ◌≤◌, ◌<◌}
pub use Prim.Native.String.{String}
pub use mathlib.Core.Path.{◌≡◌, refl, sym, ap, ap₂, subst, ◌∙◌}
pub use mathlib.Core.Logic.{◌≢◌, ◌↔◌, ◌⊎◌, inl, inr}
pub use mathlib.Core.Bool.{Bool, true, false, not, ◌&&◌, ◌||◌}
pub use mathlib.Core.Option.{Option, none, some}
pub use mathlib.Core.List.{List, [], ◌∷◌, ◌++◌, map}
pub use native.Mathlib.Omega.{arith}

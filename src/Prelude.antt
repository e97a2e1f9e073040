-- ===== src/Prelude.antt =====
-- The names that all modules share: the libraries', passed on, and those of two children.
mod Tests
mod Lists
mod Results
mod Sorting
mod Rows
mod Best
pub mod Exec
pub mod Outcomes
pub use Tests.*
pub use Lists.*
unfoldable pub use Results.*
unfoldable pub use Sorting.*
pub use Rows.*
pub use Best.*
pub use Prim.Native.Nat.{ℕ, zero, suc, ◌+◌, ◌-◌, ◌*◌, ◌/◌, ◌%◌, ◌^◌, ◌≤◌, ◌<◌}
pub use Prim.Native.String.{String}
pub use mathlib.Core.Path.{◌≡◌, refl, sym, ap, ◌∙◌}
pub use mathlib.Core.Logic.{◌≢◌, ◌↔◌, ◌⊎◌, inl, inr}
pub use mathlib.Core.Bool.{Bool, true, false, not, ◌&&◌, ◌||◌}
pub use mathlib.Core.Option.{Option, none, some}
pub use mathlib.Core.List.{List, [], ◌∷◌, ◌++◌, map}
pub use native.Mathlib.Omega.{arith}
pub use text.Mathlib.Text.{◌==◌}
pub use text.Mathlib.TextEquality.{eq_iff}

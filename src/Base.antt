-- ===== src/Base.antt =====
-- Shared vocabulary: the names of the libraries that every module uses, machine words, maps as
-- functions, sets as lists, and the outcome of a call that can fail or panic.
mod Tests
mod Lists
mod Words
mod Maps
mod Results
mod Entries
pub use Tests.*
pub use Lists.*
unfoldable pub use Words.*
pub use Maps.*
pub use Results.*
unfoldable pub use Entries.*
pub use Prim.Native.Nat.{ℕ, zero, suc, ◌+◌, ◌-◌, ◌*◌, ◌/◌, ◌%◌, ◌^◌, ◌≤◌, ◌<◌}
pub use mathlib.Core.Path.{◌≡◌, refl, sym, ap, ◌∙◌}
pub use mathlib.Core.Logic.{◌≢◌, ◌↔◌, ◌⊎◌, inl, inr}
pub use mathlib.Core.Bool.{Bool, true, false, not, ◌&&◌, ◌||◌}
pub use mathlib.Core.Option.{Option, none, some}
pub use mathlib.Core.List.{List, [], ◌∷◌, ◌++◌, map}
pub use native.Mathlib.Omega.{arith}

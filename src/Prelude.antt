-- ===== src/Prelude.antt =====
-- The names that every component shares: the libraries' names passed on, and the helpers of the
-- child modules (tests on numbers and texts, lists, maps keyed by text, signed numbers).
mod Tests
mod Lists
mod Results
pub mod Maps
mod Texts
pub mod Base64
pub mod Int
pub use Tests.*
pub use Lists.*
pub use Texts.{count-append, count-remove}
unfoldable pub use Texts.{count, remove}
pub use Results.*
pub use Prim.Native.Nat.{ℕ, zero, suc, ◌+◌, ◌-◌, ◌*◌, ◌/◌, ◌%◌, ◌^◌, ◌≤◌, ◌<◌}
pub use Prim.Native.String.{String}
pub use mathlib.Core.Path.{◌≡◌, refl, sym, ap, subst, ◌∙◌}
pub use mathlib.Core.Logic.{◌≢◌, ◌↔◌, ◌⊎◌, inl, inr}
pub use mathlib.Core.Bool.{Bool, true, false, not, ◌&&◌, ◌||◌}
pub use mathlib.Core.Option.{Option, none, some}
pub use mathlib.Core.List.{List, [], ◌∷◌, ◌++◌, map}
pub use native.Mathlib.Omega.{arith}
pub use text.Mathlib.Text.{◌==◌ as str_eq}
pub use text.Mathlib.TextEquality.{eq_iff}
pub use text.Mathlib.TextPositions.{eq_refl}

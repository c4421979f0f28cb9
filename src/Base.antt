-- ===== src/Base.antt =====
-- Names that every other module shares: the libraries', passed on, the text of the service
-- (Base/Strings), decimals (Base/Decimal) and bytes (Base/Octets), Boolean tests by decided equality (Base/Equality) and lists (Base/Lists).
mod Tests
mod Equality
mod Lists
mod Strings
mod Growing
mod Only
mod Octets
mod Decimal
pub use Tests.*
unfoldable pub use Equality.*
pub use Lists.*
unfoldable pub use Strings.*
pub use Growing.*
unfoldable pub use Only.*
unfoldable pub use Octets.*
unfoldable pub use Decimal.*
pub use Prim.Native.Nat.{ℕ, zero, suc, ◌+◌, ◌-◌, ◌*◌, ◌/◌, ◌%◌, ◌≤◌, ◌<◌, min}
pub use Prim.Native.String.{String}
pub use mathlib.Core.Path.{◌≡◌, refl, sym, ap, subst, ◌∙◌}
pub use mathlib.Core.Logic.{◌≢◌, ◌↔◌, ◌⊎◌, inl, inr, ite}
pub use mathlib.Core.Bool.{Bool, true, false, not, ◌&&◌, ◌||◌}
pub use mathlib.Core.Option.{Option, none, some}
pub use mathlib.Core.List.{List, [], ◌∷◌, ◌++◌, map, reverse}
pub use native.Mathlib.Omega.{arith}
unfoldable pub use native.Mathlib.Decide.{ℕ_discrete}

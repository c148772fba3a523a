-- ===== src/Prelude.antt =====
-- The names that the other modules share: those of the libraries, passed on, and those of the
-- children. `Tests` has Boolean tests, `Lists` list operations over the native numbers, `Members` what a list has, `Text`
-- texts as lists of code points, `Regex` regular expressions, `Dict` the dictionaries, `Int` the signed integers and `Float`
-- the interface of floating-point numbers and `Fuzz` that of the text functions from elsewhere.
pub mod Tests
pub mod Lists
pub mod Members
pub mod Text
pub mod Regex
pub mod Dict
pub mod Int
pub mod Float
pub mod Fuzz
pub use Tests.*
pub use Lists.*
pub use Prim.Native.Nat.{ℕ, zero, suc, ◌+◌, ◌-◌, ◌*◌, ◌/◌, ◌%◌, ◌^◌, ◌≤◌, ◌<◌}
pub use Prim.Native.String.{String}
pub use mathlib.Core.Path.{◌≡◌, refl, sym, ap, ◌∙◌}
pub use mathlib.Core.Logic.{◌≢◌, ◌↔◌, ◌⊎◌, inl, inr}
pub use mathlib.Core.Bool.{Bool, true, false, not, ◌&&◌, ◌||◌}
pub use mathlib.Core.Option.{Option, none, some}
pub use mathlib.Core.List.{List, [], ◌∷◌, ◌++◌, map}
pub use native.Mathlib.Omega.{arith}

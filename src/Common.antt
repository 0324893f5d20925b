-- ===== src/Common.antt =====
-- What the modules share: the names of the libraries, passed on, Boolean tests, lists with native
-- indices, little-endian bytes and bit facts. No file of the program is modelled here.
mod Tests
mod Lists
mod Bytes
mod Bits
mod Hex
mod Vec
mod Text
mod Chunks
pub use Tests.*
pub use Lists.*
pub use Bytes.*
unfoldable pub use Bits.*
pub use Hex.*
unfoldable pub use Vec.*
unfoldable pub use Chunks.*
unfoldable pub use Text.*
pub use Prim.Native.Nat.{ℕ, zero, suc, ◌+◌, ◌-◌, ◌*◌, ◌/◌, ◌%◌, ◌^◌, ◌≤◌, ◌<◌, min, max}
pub use Prim.Native.Nat.{bit_and, bit_or}
pub use Prim.Native.String.{String}
pub use mathlib.Core.Path.{◌≡◌, refl, sym, ap, ap₂, subst, ◌∙◌, fun_ext}
pub use mathlib.Core.Logic.{◌≢◌, ◌↔◌, ◌⊎◌, inl, inr}
pub use mathlib.Core.Bool.{Bool, true, false, not, ◌&&◌, ◌||◌}
pub use mathlib.Core.Option.{Option, none, some}
pub use mathlib.Core.List.{List, [], ◌∷◌, ◌++◌, map}
pub use native.Mathlib.Omega.{arith}
unfoldable pub use native.Mathlib.Decide.{dec_lt, dec_le, ℕ_discrete}

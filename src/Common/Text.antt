-- ===== src/Common/Text.antt =====
-- Rust's `HashMap` with text keys: a table whose first entry for a key counts.
use Prim.Native.String.{String}
use text.Mathlib.Text.{◌==◌}
use text.Mathlib.TextEquality.{eq_iff}
use mathlib.Core.Path.{◌≡◌}
use mathlib.Core.List.{List, [], ◌∷◌}
use mathlib.Core.Option.{Option, none, some}
use native.Mathlib.Omega.{arith}
use mo_vm.Common.Tests.{if◌then◌else◌}

module _ {ℓ} {V : Type ℓ} where
  unfoldable pub lookup : List (String × V) → String → Option V
  lookup [] path = none
  lookup ((key, value) ∷ table) path = if key == path then some value else lookup table path

  -- Entries of the key are dropped before the new one is put in front.
  unfoldable pub remove : String → List (String × V) → List (String × V)
  remove path [] = []
  remove path ((key, value) ∷ table) =
      let rest = remove path table in if key == path then rest else (key, value) ∷ rest

  unfoldable pub insert : String → V → List (String × V) → List (String × V)
  insert path value table = (path, value) ∷ remove path table

lookup-remove :
    {V : Type 0} (path other : String) (table : List (String × V))
    → lookup (remove path table) other ≡ (if path == other then none else lookup table other)
unfolding lookup remove
lookup-remove path other [] = ground arith
lookup-remove path other ((key, value) ∷ table) =
    ground
      (arith, eq_iff path other, eq_iff key path, eq_iff key other, lookup-remove path other table)

pub lookup-insert :
    {V : Type 0} (path other : String) (value : V) (table : List (String × V))
    → lookup (insert path value table) other
      ≡ (if path == other then some value else lookup table other)
unfolding lookup insert
lookup-insert path other value table = ground (arith, lookup-remove path other table)

pub lookup-insert_self :
    {V : Type 0} (path : String) (value : V) (table : List (String × V))
    → lookup (insert path value table) path ≡ some value
lookup-insert_self path value table =
    ground (arith, lookup-insert path path value table, eq_iff path path)

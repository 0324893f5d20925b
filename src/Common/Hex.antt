-- ===== src/Common/Hex.antt =====
-- `format!("{:x}", n)` for a 64-bit number.
use Prim.Native.Nat.{ℕ, zero, suc, ◌/◌, ◌%◌}
use Prim.Native.String.{String, ◌++◌}
use mathlib.Core.List.{List, [], ◌∷◌}
use mo_vm.Common.Tests.{ltb, if◌then◌else◌}
use mo_vm.Common.Lists.{get_or}

hex_digits : List String
hex_digits =
    "0" ∷ "1" ∷ "2" ∷ "3" ∷ "4" ∷ "5" ∷ "6" ∷ "7" ∷ "8" ∷ "9" ∷ "a" ∷ "b" ∷ "c" ∷ "d" ∷ "e" ∷ "f"
    ∷ []

hex_digits_of : ℕ → ℕ → String
hex_digits_of zero n = ""
hex_digits_of (suc fuel) n =
    let rest = hex_digits_of fuel (n / 16) in
    let digit = get_or hex_digits (n % 16) "" in if ltb n 16 then digit else rest ++ digit

-- A 64-bit number has at most 16 digits.
pub hex : ℕ → String
hex n = hex_digits_of 16 n

-- ===== src/Common/Vec.antt =====
-- `vec![0u8; n]`, kept shut because the program makes long ones, and list facts about ranges.
use Prim.Native.Nat.{ℕ, suc, ◌+◌, ◌≤◌}
use mathlib.Core.Path.{◌≡◌, refl}
use mathlib.Core.Logic.{◌⊎◌}
use mathlib.Core.List.{List, [], ◌∷◌}
use mathlib.Core.Option.{none, some}
use native.Mathlib.Omega.{arith}
use mo_vm.Common.Tests.{ltb, if◌then◌else◌}
use mo_vm.Common.Lists.{
  length-take, length-splice, length, get_elem?, take, drop, replicate, splice, length-replicate,
  get_elem?-replicate, get_elem?-take, get_elem?-drop, get_elem?-splice,
}

unfoldable pub zeroed : ℕ → List ℕ
zeroed n = replicate n 0

pub length-zeroed : (n : ℕ) → length (zeroed n) ≡ n
unfolding zeroed
length-zeroed n = length-replicate n 0

pub get_elem?-zeroed : (n i : ℕ) → get_elem? (zeroed n) i ≡ (if ltb i n then some 0 else none)
unfolding zeroed
get_elem?-zeroed n i = get_elem?-replicate n 0 i

-- Lists are equal when all their elements are.
pub list_ext : {A : Type 0} (xs ys : List A) → ((i : ℕ) → get_elem? xs i ≡ get_elem? ys i) → xs ≡ ys
list_ext [] [] h = refl
list_ext [] (y ∷ ys) h = cc (h 0)
list_ext (x ∷ xs) [] h = cc (h 0)
list_ext (x ∷ xs) (y ∷ ys) h = cc (h 0, list_ext xs ys (λ i. h (suc i)))

-- A range apart from what a copy changes is as before.
pub take-drop-splice_apart :
    {A : Type 0} (dst : List A) (i : ℕ) (src : List A) (k n : ℕ)
    → i + length src ≤ length dst
    → (k + n ≤ i) ⊎ (i + length src ≤ k)
    → take n (drop k (splice dst i src)) ≡ take n (drop k dst)
take-drop-splice_apart dst i src k n h apart =
    list_ext (take n (drop k (splice dst i src))) (take n (drop k dst)) λ j. ground (
      arith,
      get_elem?-take n (drop k (splice dst i src)) j,
      get_elem?-take n (drop k dst) j,
      get_elem?-drop k (splice dst i src) j,
      get_elem?-drop k dst j,
      get_elem?-splice dst i src (k + j),
    )

-- A part of zeros is zeros.
pub take-drop-zeroed : (m k n : ℕ) → k + n ≤ m → take n (drop k (zeroed m)) ≡ replicate n 0
take-drop-zeroed m k n h = list_ext (take n (drop k (zeroed m))) (replicate n 0) λ j. ground (
  arith,
  get_elem?-take n (drop k (zeroed m)) j,
  get_elem?-drop k (zeroed m) j,
  get_elem?-zeroed m (k + j),
  get_elem?-replicate {A = ℕ} n 0 j,
)

-- `buf[..n].copy_from_slice(&src[..n])`
pub copy_prefix :
    {A : Type 0} (buf src : List A) (n i : ℕ)
    → n ≤ length buf
    → n ≤ length src
    → (length (splice buf 0 (take n src)) ≡ length buf)
      × (get_elem? (splice buf 0 (take n src)) i
          ≡ (if ltb i n then get_elem? src i else get_elem? buf i))
copy_prefix buf src n i h k =
    let long : length (take n src) ≡ n = omega (arith, length-take n src) in
    (
      length-splice buf 0 (take n src) (omega arith),
      ground (arith, long, get_elem?-splice buf 0 (take n src) i, get_elem?-take n src i),
    )

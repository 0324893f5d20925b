-- ===== src/Common/Bits.antt =====
-- Bit operations with one side known: flags joined to an aligned number, and a mask of low ones. Both
-- follow the recursion on binary digits that the native operations mean, with any fuel that is enough.
use Prim.Native.Nat.{
  ℕ, zero, suc, ◌+◌, ◌-◌, ◌*◌, ◌/◌, ◌≤◌, ◌<◌, min, max, digits, bit_and, bit_or, bit_and-bitwise,
  bit_or-bitwise,
}
use mathlib.Core.Path.{◌≡◌, refl}
use native.Mathlib.Nat.{le_refl}
use native.Mathlib.Omega.{arith}

-- `twos k` is 2 to the `k`, by doubling.
abbrev pub twos : ℕ → ℕ
twos zero = 1
twos (suc k) = 2 * twos k

twos-pos : (k : ℕ) → 1 ≤ twos k
twos-pos zero = omega arith
twos-pos (suc k) = omega (arith, twos-pos k)

-- `x` is a multiple of 2 to the `k`, and `b` lies below that.
digits-max :
    (n k a b x : ℕ) → x ≡ a * twos k → x ≤ n → b < twos k → digits (λ y. y) max n x b ≡ x + b
digits-max zero k a b x e enough small = omega (arith, enough)
digits-max (suc n) k a b zero e enough small = omega arith
digits-max (suc n) zero a b (suc x) e enough small = omega (
  arith,
  digits-max n zero (suc x / 2) (b / 2) (suc x / 2) (omega arith) (omega arith) (omega arith),
)
digits-max (suc n) (suc k) a b (suc x) e enough small =
    let half : suc x / 2 ≡ a * twos k = omega (arith, e) in
    omega (arith, digits-max n k a (b / 2) (suc x / 2) half (omega arith) (omega arith))

-- Flags below a power of two join an address whose low bits are clear by addition.
pub bit_or_low : (k a b : ℕ) → b < twos k → bit_or (a * twos k) b ≡ a * twos k + b
bit_or_low k a b small =
    simp bit_or-bitwise (digits-max (a * twos k) k a b (a * twos k) refl (le_refl _) small)

-- `d` is what is left of `a` by 2 to the `k`.
IsRemainder : ℕ → ℕ → ℕ → Type 0
IsRemainder k a d = (q : ℕ) × (a ≡ twos k * q + d) × (d < twos k)

digits-min : (n k a m : ℕ) → m ≡ twos k - 1 → a ≤ n → IsRemainder k a (digits (λ y. 0) min n a m)
unfolding IsRemainder
digits-min zero k a m e enough = (0, omega arith, omega (arith, twos-pos k))
digits-min (suc n) k zero m e enough = (0, omega arith, omega (arith, twos-pos k))
digits-min (suc n) zero (suc a) m e enough =
    let (q, sum, lt) = digits-min n zero (suc a / 2) (m / 2) (omega arith) (omega arith) in
    (suc a, omega arith, omega arith)
digits-min (suc n) (suc k) (suc a) m e enough =
    let half : m / 2 ≡ twos k - 1 = omega (arith, twos-pos k) in
    let (q, sum, lt) = digits-min n k (suc a / 2) (m / 2) half (omega arith) in
    (q, omega (arith, twos-pos k), omega (arith, twos-pos k))

-- A mask of `k` ones keeps the remainder by 2 to the `k`, with this quotient.
pub bit_and_mask :
    (k a : ℕ)
    → (q : ℕ) × (a ≡ twos k * q + bit_and a (twos k - 1)) × (bit_and a (twos k - 1) < twos k)
unfolding IsRemainder
bit_and_mask k a = simp bit_and-bitwise (digits-min a k a (twos k - 1) refl (le_refl a))

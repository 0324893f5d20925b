-- ===== src/Common/Lists.antt =====
-- Lists measured and indexed by native numbers, under the library's names; Rust's slices.
use Prim.Native.Nat.{ℕ, zero, suc, ◌+◌, ◌-◌, ◌≤◌, ◌<◌, min}
use mathlib.Core.Path.{◌≡◌, refl, ap, ◌∙◌}
use mathlib.Core.Bool.{Bool, true, ◌&&◌}
use mathlib.Core.Logic.{◌≢◌}
use mathlib.Core.List.{List, [], ◌∷◌, ◌++◌, map}
use mathlib.Core.Option.{Option, none, some}
use native.Mathlib.Omega.{arith}
use mo_vm.Common.Tests.{ltb, leb, if◌then◌else◌}

module _ {ℓ} {A : Type ℓ} where
  abbrev pub length : List A → ℕ
  length [] = 0
  length (x ∷ xs) = suc (length xs)

  abbrev pub get_elem? : List A → ℕ → Option A
  get_elem? [] i = none
  get_elem? (x ∷ xs) zero = some x
  get_elem? (x ∷ xs) (suc i) = get_elem? xs i

  abbrev pub get_or : List A → ℕ → A → A
  get_or [] i d = d
  get_or (x ∷ xs) zero d = x
  get_or (x ∷ xs) (suc i) d = get_or xs i d

  abbrev pub take : ℕ → List A → List A
  take zero xs = []
  take (suc n) [] = []
  take (suc n) (x ∷ xs) = x ∷ take n xs

  abbrev pub drop : ℕ → List A → List A
  drop zero xs = xs
  drop (suc n) [] = []
  drop (suc n) (x ∷ xs) = drop n xs

  abbrev pub replicate : ℕ → A → List A
  replicate zero a = []
  replicate (suc n) a = a ∷ replicate n a

  -- `dst[i..i + src.len()].copy_from_slice(src)`, where the range lies within `dst`.
  abbrev pub splice : List A → ℕ → List A → List A
  splice dst i src = take i dst ++ (src ++ drop (length src) (drop i dst))

  pub length-append : (xs ys : List A) → length (xs ++ ys) ≡ length xs + length ys
  length-append [] ys = omega arith
  length-append (x ∷ xs) ys = omega (arith, length-append xs ys)

  pub length-take : (n : ℕ) (xs : List A) → length (take n xs) ≡ min n (length xs)
  length-take zero xs = omega arith
  length-take (suc n) [] = omega arith
  length-take (suc n) (x ∷ xs) = omega (arith, length-take n xs)

  pub length-drop : (n : ℕ) (xs : List A) → length (drop n xs) ≡ length xs - n
  length-drop zero xs = omega arith
  length-drop (suc n) [] = omega arith
  length-drop (suc n) (x ∷ xs) = omega (arith, length-drop n xs)

  pub length-replicate : (n : ℕ) (a : A) → length (replicate n a) ≡ n
  length-replicate zero a = refl
  length-replicate (suc n) a = ap suc (length-replicate n a)

  pub take_all : (n : ℕ) (xs : List A) → length xs ≤ n → take n xs ≡ xs
  take_all zero [] h = refl
  take_all zero (x ∷ xs) h = absurd (omega arith)
  take_all (suc n) [] h = refl
  take_all (suc n) (x ∷ xs) h = ap (◌∷◌ x) (take_all n xs (omega arith))

  pub get_elem?-append :
      (xs ys : List A) (i : ℕ)
      → get_elem? (xs ++ ys) i
        ≡ (if ltb i (length xs) then get_elem? xs i else get_elem? ys (i - length xs))
  get_elem?-append [] ys i = ground arith
  get_elem?-append (x ∷ xs) ys zero = ground arith
  get_elem?-append (x ∷ xs) ys (suc i) = ground (arith, get_elem?-append xs ys i)

  pub get_elem?-take :
      (n : ℕ) (xs : List A) (i : ℕ)
      → get_elem? (take n xs) i ≡ (if ltb i n then get_elem? xs i else none)
  get_elem?-take zero xs i = ground arith
  get_elem?-take (suc n) [] i = ground arith
  get_elem?-take (suc n) (x ∷ xs) zero = ground arith
  get_elem?-take (suc n) (x ∷ xs) (suc i) = ground (arith, get_elem?-take n xs i)

  pub get_elem?-drop :
      (n : ℕ) (xs : List A) (i : ℕ) → get_elem? (drop n xs) i ≡ get_elem? xs (n + i)
  get_elem?-drop zero xs i = ground arith
  get_elem?-drop (suc n) [] i = refl
  get_elem?-drop (suc n) (x ∷ xs) i = ground (arith, get_elem?-drop n xs i)

  pub get_elem?-none : (xs : List A) (i : ℕ) → length xs ≤ i → get_elem? xs i ≡ none
  get_elem?-none [] i h = refl
  get_elem?-none (x ∷ xs) zero h = absurd (omega arith)
  get_elem?-none (x ∷ xs) (suc i) h = get_elem?-none xs i (omega arith)

  pub get_or-default : (xs : List A) (i : ℕ) (d : A) → length xs ≤ i → get_or xs i d ≡ d
  get_or-default [] i d h = refl
  get_or-default (x ∷ xs) zero d h = absurd (omega arith)
  get_or-default (x ∷ xs) (suc i) d h = get_or-default xs i d (omega arith)

  pub get_elem?-ne-none : (xs : List A) (i : ℕ) → i < length xs → get_elem? xs i ≢ none
  get_elem?-ne-none [] i h e = omega arith
  get_elem?-ne-none (x ∷ xs) zero h e = cc
  get_elem?-ne-none (x ∷ xs) (suc i) h e = get_elem?-ne-none xs i (omega arith) e

  pub get_elem?-replicate :
      (n : ℕ) (a : A) (i : ℕ) → get_elem? (replicate n a) i ≡ (if ltb i n then some a else none)
  get_elem?-replicate zero a i = ground arith
  get_elem?-replicate (suc n) a zero = ground arith
  get_elem?-replicate (suc n) a (suc i) = ground (arith, get_elem?-replicate n a i)

  pub length-splice :
      (dst : List A) (i : ℕ) (src : List A)
      → i + length src ≤ length dst
      → length (splice dst i src) ≡ length dst
  length-splice dst i src h = omega (
    arith,
    length-append (take i dst) (src ++ drop (length src) (drop i dst)),
    length-append src (drop (length src) (drop i dst)),
    length-take i dst,
    length-drop (length src) (drop i dst),
    length-drop i dst,
  )

  take_prefix : (xs ys : List A) → take (length xs) (xs ++ ys) ≡ xs
  take_prefix [] ys = refl
  take_prefix (x ∷ xs) ys = ap (◌∷◌ x) (take_prefix xs ys)

  -- What is copied in reads back.
  pub take-drop-splice :
      (dst : List A) (i : ℕ) (src : List A)
      → i + length src ≤ length dst
      → take (length src) (drop i (splice dst i src)) ≡ src
  take-drop-splice dst zero src h = take_prefix src (drop (length src) dst)
  take-drop-splice [] (suc i) src h = absurd (omega arith)
  take-drop-splice (d ∷ dst) (suc i) src h = take-drop-splice dst i src (omega arith)

-- A copy changes the elements of its range and no other.
pub get_elem?-splice :
    {A : Type 0} (dst : List A) (i : ℕ) (src : List A) (j : ℕ)
    → i + length src ≤ length dst
    → get_elem? (splice dst i src) j ≡ (
        if leb i j
        then if ltb (j - i) (length src) then get_elem? src (j - i) else get_elem? dst j
        else get_elem? dst j)
get_elem?-splice dst i src j h = ground (
  arith,
  get_elem?-append (take i dst) (src ++ drop (length src) (drop i dst)) j,
  get_elem?-append src (drop (length src) (drop i dst)) (j - i),
  get_elem?-take i dst j,
  get_elem?-drop (length src) (drop i dst) (j - i - length src),
  get_elem?-drop i dst (length src + (j - i - length src)),
  length-take i dst,
)

pub length-map {ℓ κ} :
    {A : Type ℓ} {B : Type κ} (xs : List A) (f : A → B) → length (map f xs) ≡ length xs
length-map [] f = refl
length-map (x ∷ xs) f = ap suc (length-map xs f)

-- The numbers from `start` on, `n` of them.
abbrev pub counted : ℕ → ℕ → List ℕ
counted start zero = []
counted start (suc n) = start ∷ counted (suc start) n

pub get_elem?-counted : (start n i : ℕ) → i < n → get_elem? (counted start n) i ≡ some (start + i)
get_elem?-counted start zero i h = absurd (omega arith)
get_elem?-counted start (suc n) zero h = ap some {x = start} {y = start + 0} (omega arith)
get_elem?-counted start (suc n) (suc i) h =
    get_elem?-counted (suc start) n i (omega arith)
    ∙ ap some {x = suc start + i} {y = start + suc i} (omega arith)

abbrev pub every {ℓ} : {A : Type ℓ} → (A → Bool) → List A → Bool
every p [] = true
every p (x ∷ xs) = p x && every p xs

pub every-get_elem? :
    {A : Type 0} (p : A → Bool) (xs : List A) (i : ℕ) (x : A)
    → every p xs ≡ true
    → get_elem? xs i ≡ some x
    → p x ≡ true
every-get_elem? p [] i x h e = ground arith
every-get_elem? p (y ∷ xs) zero x h e = ground (arith, ap p {x = y} {y = x})
every-get_elem? p (y ∷ xs) (suc i) x h e = every-get_elem? p xs i x (ground arith) e

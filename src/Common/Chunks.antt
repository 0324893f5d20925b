-- ===== src/Common/Chunks.antt =====
-- `slice.chunks(4096)`, and what cutting a list and putting parts into it come to.
use Prim.Native.Nat.{ℕ, zero, suc, ◌+◌, ◌-◌, ◌≤◌, ◌<◌}
use mathlib.Core.Path.{◌≡◌, refl, ap, sym, ◌∙◌}
use mathlib.Core.List.{List, [], ◌∷◌, ◌++◌, append-nil}
use native.Mathlib.Omega.{arith}
use mo_vm.Common.Lists.{
  length, get_elem?, take, drop, splice, length-append, length-take, length-drop, get_elem?-append,
  get_elem?-take, get_elem?-drop, get_elem?-splice, length-splice, get_elem?-none,
}
use mo_vm.Common.Vec.{list_ext}

-- With as many rounds as there are elements.
unfoldable pub chunks_in : {A : Type 0} → ℕ → List A → List (List A)
chunks_in zero xs = []
chunks_in (suc rounds) [] = []
chunks_in (suc rounds) (x ∷ xs) = take 4096 (x ∷ xs) ∷ chunks_in rounds (drop 4096 (x ∷ xs))

unfoldable pub chunks : {A : Type 0} → List A → List (List A)
chunks xs = chunks_in (length xs) xs

pub take-append-drop :
    {A : Type 0} (a b : ℕ) (xs : List A) → take a xs ++ take b (drop a xs) ≡ take (a + b) xs
take-append-drop a b xs = list_ext (take a xs ++ take b (drop a xs)) (take (a + b) xs) λ i. ground (
  arith,
  get_elem?-append (take a xs) (take b (drop a xs)) i,
  get_elem?-take a xs i,
  get_elem?-take b (drop a xs) (i - length (take a xs)),
  get_elem?-drop a xs (i - length (take a xs)),
  get_elem?-take (a + b) xs i,
  length-take a xs,
  get_elem?-none xs i,
  get_elem?-none xs (a + (i - length (take a xs))),
)

drop-drop : {A : Type 0} (a b : ℕ) (xs : List A) → drop a (drop b xs) ≡ drop (b + a) xs
drop-drop a b xs = list_ext (drop a (drop b xs)) (drop (b + a) xs) λ i. ground (
  arith,
  get_elem?-drop a (drop b xs) i,
  get_elem?-drop b xs (a + i),
  get_elem?-drop (b + a) xs i,
)

-- Two reads that meet are one read of both.
pub take_two :
    {A : Type 0} (c : List A) (m n k k' : ℕ)
    → (0 < n → k' ≡ k + m)
    → take m (drop k c) ++ take n (drop k' c) ≡ take (m + n) (drop k c)
take_two c m zero k k' meet =
    append-nil (take m (drop k c)) ∙ ap (λ l. take l (drop k c)) {x = m} {y = m + 0} (omega arith)
take_two c m (suc n) k k' meet =
    ap (λ l. take m (drop k c) ++ take (suc n) l)
      (ap (λ j. drop j c) (meet (omega arith)) ∙ sym (drop-drop m k c))
    ∙ take-append-drop m (suc n) (drop k c)

pub length-take-drop :
    {A : Type 0} (n : ℕ) (xs : List A) → length (take n xs) + length (drop n xs) ≡ length xs
length-take-drop n xs = omega (arith, length-take n xs, length-drop n xs)

take_then_drop : {A : Type 0} (n : ℕ) (xs : List A) → take n xs ++ drop n xs ≡ xs
take_then_drop zero xs = refl
take_then_drop (suc n) [] = refl
take_then_drop (suc n) (x ∷ xs) = ap (◌∷◌ x) (take_then_drop n xs)

-- Two writes that meet are one write of both.
pub splice-splice :
    {A : Type 0} (c : List A) (k : ℕ) (a b : List A)
    → k + length a + length b ≤ length c
    → splice (splice c k a) (k + length a) b ≡ splice c k (a ++ b)
splice-splice c k a b h =
    list_ext (splice (splice c k a) (k + length a) b) (splice c k (a ++ b)) λ i. ground (
      arith,
      length-append a b,
      length-splice c k a (omega arith),
      get_elem?-splice (splice c k a) (k + length a) b i
          (omega (arith, length-splice c k a (omega arith))),
      get_elem?-splice c k a i (omega arith),
      get_elem?-splice c k (a ++ b) i (omega (arith, length-append a b)),
      get_elem?-append a b (i - k),
    )

pub splice-nil : {A : Type 0} (c : List A) (k : ℕ) → splice c k [] ≡ c
splice-nil c k = take_then_drop k c

-- A write of a part and then of what is left, if anything is.
pub splice_two :
    {A : Type 0} (c : List A) (n k k' : ℕ) (bs : List A)
    → (0 < length (drop n bs) → k' ≡ k + length (take n bs))
    → k + length bs ≤ length c
    → splice (splice c k (take n bs)) k' (drop n bs) ≡ splice c k bs
splice_two {A} c n k k' bs meet room =
    splice_rest (drop n bs) meet (omega (arith, length-take-drop n bs))
    ∙ ap (splice c k) (take_then_drop n bs)
  where
    splice_rest :
        (rest : List A)
        → (0 < length rest → k' ≡ k + length (take n bs))
        → k + length (take n bs) + length rest ≤ length c
        → splice (splice c k (take n bs)) k' rest ≡ splice c k (take n bs ++ rest)
    splice_rest [] _ _ =
        splice-nil (splice c k (take n bs)) k' ∙ ap (splice c k) (sym (append-nil (take n bs)))
    splice_rest (b ∷ rest) meet room =
        ap (λ j. splice (splice c k (take n bs)) j (b ∷ rest)) (meet (omega arith))
        ∙ splice-splice c k (take n bs) (b ∷ rest) room

-- A write over a whole list replaces it.
pub splice_whole :
    {A : Type 0} (c : List A) (k : ℕ) (bs : List A)
    → k ≡ 0
    → length bs ≡ length c
    → splice c k bs ≡ bs
splice_whole c k bs zeroth same = list_ext (splice c k bs) bs λ i. ground (
  arith,
  get_elem?-splice c k bs i (omega arith),
  get_elem?-none c i,
  get_elem?-none bs i,
  ap (get_elem? bs) {x = i - k} {y = i},
)

-- ===== src/Error/Try.antt =====
-- Rust's `?` on results that no state passes through.
use mo_vm.Common.{◌≡◌, refl, subst, List, [], ◌∷◌, map}
use mo_vm.Error.{Outcome, ok, err, panic}

infixl 5 ◌>>=◌ ◌>>◌
abbrev pub ◌>>=◌ : {A B : Type 0} → Outcome A → (A → Outcome B) → Outcome B
panic >>= next = panic
err x >>= next = err x
ok value >>= next = next value

abbrev pub ◌>>◌ : {B : Type 0} → Outcome (Unit {0}) → Outcome B → Outcome B
first >> second = first >>= λ done. second

-- What a bind that succeeds went through.
pub >>=-eq-ok :
    {A B : Type 0} (first : Outcome A) (next : A → Outcome B) {result : B}
    → (first >>= next) ≡ ok result
    → (value : A) × (first ≡ ok value) × (next value ≡ ok result)
>>=-eq-ok panic next e = cc
>>=-eq-ok (err x) next e = cc
>>=-eq-ok (ok value) next e = (value, refl, e)

-- `iter().map(f).collect::<Result<Vec<_>>>()`, and a loop that pushes what `f` gives.
unfoldable pub traverse : {A B : Type 0} → (A → Outcome B) → List A → Outcome (List B)
traverse f [] = ok []
traverse f (x ∷ xs) = f x >>= λ y. traverse f xs >>= λ ys. ok (y ∷ ys)

abbrev pub All : {A : Type 0} → (A → Type 0) → List A → Type 0
All P [] = Unit {0}
All P (x ∷ xs) = P x × All P xs

pub ok_inj : {A : Type 0} (a b : A) → ◌≡◌ {A = Outcome A} (ok a) (ok b) → a ≡ b
ok_inj a b e = cc

-- If `g` undoes `f` on each element, but for `h`, then so it does on the list.
pub traverse-traverse :
    {A B : Type 0} (P : A → Type 0) (f : A → Outcome B) (g : B → Outcome A) (h : A → A)
    → ((x : A) (y : B) → P x → f x ≡ ok y → g y ≡ ok (h x))
    → (xs : List A) (ys : List B) → All P xs
    → traverse f xs ≡ ok ys
    → traverse g ys ≡ ok (map h xs)
unfolding traverse
traverse-traverse P f g h undoes [] ys p e =
    subst (λ zs. traverse g zs ≡ ok []) (ok_inj [] ys e) refl
traverse-traverse P f g h undoes (x ∷ xs) ys (p, ps) e =
    let (y, first, e') = >>=-eq-ok (f x) (λ y. traverse f xs >>= λ ys. ok (y ∷ ys)) e in
    let (ys', others, e'') = >>=-eq-ok (traverse f xs) (λ ys. ok (y ∷ ys)) e' in
    subst (λ zs. traverse g zs ≡ ok (h x ∷ map h xs)) (ok_inj (y ∷ ys') ys e'')
      (rw (undoes x y p first, traverse-traverse P f g h undoes xs ys' ps others) refl)

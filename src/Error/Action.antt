-- ===== src/Error/Action.antt =====
-- Fallible code over a state: an action returns the state that it leaves beside its outcome, so a
-- failure keeps the effects that came before it. `Runs` is total correctness.
use mo_vm.Common.{◌≡◌, refl, ◌∙◌, ap}
use mo_vm.Error.{Outcome, ok, err, panic, HypervisorError}

abbrev pub Action : Type 0 → Type 0 → Type 0
Action S A = S → S × Outcome A

abbrev pub after : {S A B : Type 0} → S × Outcome A → (A → Action S B) → S × Outcome B
after (s, ok a) f = f a s
after (s, err e) f = (s, err e)
after (s, panic) f = (s, panic)

abbrev pub return : {S A : Type 0} → A → Action S A
return a s = (s, ok a)

abbrev pub fail : {S A : Type 0} → HypervisorError → Action S A
fail e s = (s, err e)

infixl 5 ◌>>=◌ ◌>>◌
abbrev pub ◌>>=◌ : {S A B : Type 0} → Action S A → (A → Action S B) → Action S B
◌>>=◌ m f s = after (m s) f

abbrev pub ◌>>◌ : {S B : Type 0} → Action S (Unit {0}) → Action S B → Action S B
◌>>◌ m k s = after (m s) (λ _. k)

-- The action succeeds from `s`, and its value and final state meet `P`.
abbrev pub Runs : {S A : Type 0} → Action S A → S → (A → S → Type 0) → Type 0
Runs {S} {A} m s P = (a : A) × (t : S) × (m s ≡ (t, ok a)) × P a t

pub Runs-bind :
    {S A B : Type 0} (m : Action S A) (f : A → Action S B) (s : S) (P : A → S → Type 0)
    (Q : B → S → Type 0)
    → Runs m s P
    → ((a : A) (t : S) → P a t → Runs (f a) t Q)
    → Runs (m >>= f) s Q
Runs-bind m f s P Q (a, t, e, p) next =
    let r = next a t p in (r.0, r.1, ap (λ x. after x f) e ∙ r.2, r.3)

pub Runs-then :
    {S B : Type 0} (m : Action S (Unit {0})) (k : Action S B) (s : S) (P : S → Type 0)
    (Q : B → S → Type 0)
    → Runs m s (λ _ t. P t)
    → ((t : S) → P t → Runs k t Q)
    → Runs (m >> k) s Q
Runs-then m k s P Q (a, t, e, p) next =
    let r = next t p in (r.0, r.1, ap (λ x. after x (λ _. k)) e ∙ r.2, r.3)

pub after_assoc :
    {S A B C : Type 0} (x : S × Outcome A) (f : A → Action S B) (g : B → Action S C)
    → after (after x f) g ≡ after x (λ a s. after (f a s) g)
after_assoc (s, ok a) f g = refl
after_assoc (s, err e) f g = refl
after_assoc (s, panic) f g = refl

-- What a run that succeeds leaves to what follows it.
pub Runs-after :
    {S B : Type 0} (m : Action S (Unit {0})) (k : Action S B) (s : S) {u : Unit {0}} {t : S}
    → m s ≡ (t, ok u)
    → (m >> k) s ≡ k t
Runs-after m k s e = ap (λ x. after x (λ _. k)) e

-- What holds before a step and is kept by it holds after it, and so does what an earlier failure left.
pub after-keeps :
    {S A B : Type 0} (P : S → Type 0) (x : S × Outcome A) (f : A → Action S B)
    → P x.0
    → ((a : A) (s : S) → P s → P (f a s).0)
    → P (after x f).0
after-keeps P (s, ok a) f p keep = keep a s p
after-keeps P (s, err e) f p keep = p
after-keeps P (s, panic) f p keep = p

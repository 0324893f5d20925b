-- ===== src/Virtio/Queue/Drain.antt =====
-- Rules for the loop over a queue.
use mo_vm.Common.{String, ◌≡◌, refl, ◌∙◌, ap, List, [], ◌∷◌}
use mo_vm.Error.{HypervisorError, Outcome, ok, err, panic}
use mo_vm.Error.Action.{Action}
use mo_vm.Virtio.Queue.{Chain, Yield, broken, available, Flow, next, stop, after_round, drain_with}

after_round_inv :
    {M S : Type 0} (P : S → Type 0) (x : S × Outcome Flow) (ys : List (Yield M))
    (rest : S → S × List (Yield M) × Outcome (Unit {0}))
    → P x.0
    → ((s : S) → P s → P (rest s).0)
    → P (after_round x ys rest).0
after_round_inv P (s, ok next) ys rest p f = f s p
after_round_inv P (s, ok stop) ys rest p f = p
after_round_inv P (s, err e) ys rest p f = p
after_round_inv P (s, panic) ys rest p f = p

module _ {M S : Type 0} (refused : String → HypervisorError) (round : Chain M → Action S Flow) where
  -- What every round keeps, the loop keeps, however it ends.
  pub drain_inv :
      (P : S → Type 0)
      → ((c : Chain M) (s : S) → P s → P (round c s).0)
      → (ys : List (Yield M)) (s : S) → P s
      → P (drain_with refused round ys s).0
  unfolding drain_with
  drain_inv P keep [] s p = p
  drain_inv P keep (broken e ∷ ys) s p = p
  drain_inv P keep (available c ∷ ys) s p =
      after_round_inv P (round c s) ys (drain_with refused round ys) (keep c s p)
        (drain_inv P keep ys)

-- The queue holds these chains and then ends.
abbrev pub all_available : {M : Type 0} → List (Chain M) → List (Yield M)
all_available [] = []
all_available (c ∷ cs) = available c ∷ all_available cs

abbrev pub each : {M S : Type 0} → (Chain M → S → S) → List (Chain M) → S → S
each step [] s = s
each step (c ∷ cs) s = each step cs (step c s)

-- Rounds that always go on take every chain in turn, and empty the queue.
pub drain-each :
    {M S : Type 0} (refused : String → HypervisorError) (round : Chain M → Action S Flow)
    (step : Chain M → S → S)
    → ((c : Chain M) (s : S) → round c s ≡ (step c s, ok next))
    → (cs : List (Chain M)) (s : S)
    → drain_with refused round (all_available cs) s ≡ (each step cs s, [], ok tt)
unfolding drain_with
drain-each refused round step goes_on [] s = refl
drain-each refused round step goes_on (c ∷ cs) s =
    ap (λ x. after_round x (all_available cs) (drain_with refused round (all_available cs)))
      (goes_on c s)
    ∙ drain-each refused round step goes_on cs (step c s)

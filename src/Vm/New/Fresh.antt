-- ===== src/Vm/New/Fresh.antt =====
-- What a new machine is.
use mo_vm.Common.{
  ℕ, ◌≡◌, refl, subst, String, Bool, true, false, none, List, [], ◌∷◌, inl, inr, Option-cases, map,
  counted, arith,
}
use mo_vm.Error.{Outcome, ok, err, panic}
use mo_vm.Error.Action.{Action, after, ◌>>=◌}
use mo_vm.GuestMemory.{GuestMemory}
use mo_vm.Memory.{
  memory_size, ranges, Mapped, mapped, Region, MemorySlot, setup_memory_region, new as new_memory,
}
use mo_vm.Memory.Layout.{slots_of, setup_memory_region-slots_of}
use mo_vm.Vcpu.{Vcpu, VcpuFd, new as new_vcpu}
use mo_vm.Vm.{VirtualMachine}
use mo_vm.Vm.New.{Kvm, clone_vmfd, kvm_call, lift, create_vcpu, create_vcpus, new}
use mo_vm.Error.Try.{traverse, ok_inj}

-- Every call works. `fd` is what creating a vCPU gives.
pub record Works (kvm : Kvm) (fd : ℕ → VcpuFd) : Type 0 where
  pub opens : kvm.open_kvm ≡ none
  pub creates : kvm.create_vm ≡ none
  pub irq_chip : kvm.create_irq_chip ≡ none
  pub pit : kvm.create_pit2 ≡ none
  pub takes : (slot : MemorySlot) → kvm.refuses slot ≡ none
  pub vcpus : (i : ℕ) → kvm.create_vcpu i ≡ inr (fd i)
  pub opens_again : kvm.open_kvm_again ≡ none
  pub creates_second : kvm.create_second_vm ≡ none

abbrev pub vcpu_of : (ℕ → VcpuFd) → ℕ → Vcpu
vcpu_of fd i = record {
  id = i;
  failures = (fd i).failures;
  regs = (fd i).regs;
  sregs = (fd i).sregs;
  fpu = (fd i).fpu;
  msrs = [];
}

module _ (strerror : ℕ → String) (kvm : Kvm) (fd : ℕ → VcpuFd) (works : Works kvm fd) where
  create_each : (is : List ℕ) → traverse (create_vcpu strerror kvm) is ≡ ok (map (vcpu_of fd) is)
  unfolding traverse create_vcpu new_vcpu
  create_each [] = refl
  create_each (i ∷ is) = simp (create_vcpu, works.vcpus i, create_each is)

  clone_vmfd-ok : (copied : Bool) × (clone_vmfd strerror kvm ≡ ok copied)
  unfolding clone_vmfd
  clone_vmfd-ok = elim (Option-cases kvm.get_clock) [
    | inr (x, a) ↦ (false, ground (arith, works.opens_again, works.creates_second))
    | inl a ↦ elim (Option-cases kvm.set_clock) [
      | inl b ↦ (true, ground (arith, works.opens_again, works.creates_second))
      | inr (x, b) ↦ (false, ground (arith, works.opens_again, works.creates_second))
    ]
  ]

  mapped_memory :
      (G : GuestMemory) (from_ranges : List (ℕ × ℕ) → Mapped G.Mem) (m : G.Mem)
      → from_ranges ((0, memory_size) ∷ []) ≡ mapped m
      → new_memory from_ranges memory_size ≡ ok (record { memory = m; low_mem_size = memory_size })
  unfolding new_memory ranges
  mapped_memory G from_ranges m e = rw (new_memory, e) refl

  -- With every call that is needed working and the memory mapped, a new machine has its vCPUs numbered
  -- from 0 in order, each as KVM gave it, the memory with 128 MB of low memory, no kernel, no device
  -- and 5 as the next interrupt number, and does not run; KVM has a slot for each region of the
  -- memory.
  pub new-fresh :
      (G : GuestMemory) (decimal : ℕ → String) (from_ranges : List (ℕ × ℕ) → Mapped G.Mem)
      (iterate : G.Mem → List Region) (m : G.Mem) (num_cpus : ℕ)
      → from_ranges ((0, memory_size) ∷ []) ≡ mapped m
      → new strerror kvm G decimal from_ranges iterate num_cpus [] ≡ (
        slots_of 0 (iterate m),
        ok (record {
          vcpus = map (vcpu_of fd) (counted 0 num_cpus);
          memory = record { memory = m; low_mem_size = memory_size };
          kernel_loader = none;
          devices = [];
          num_cpus = num_cpus;
          next_irq = 5;
          running = false;
        }),
      )
  unfolding new create_vcpus new_memory ranges
  new-fresh G decimal from_ranges iterate m num_cpus e =
      let (copied, cloned) = clone_vmfd-ok in
      simp (
        works.opens,
        works.creates,
        works.irq_chip,
        works.pit,
        mapped_memory G from_ranges m e,
        setup_memory_region-slots_of kvm.refuses 0 (iterate m) [] works.takes,
        create_each (counted 0 num_cpus),
        cloned,
      )

-- A new machine, whatever the host answered.
abbrev pub IsFresh : (G : GuestMemory) (decimal : ℕ → String) → VirtualMachine G decimal → Type 0
IsFresh G decimal self =
    (self.devices ≡ []) × (self.kernel_loader ≡ none) × (self.next_irq ≡ 5) × (self.running ≡ false)

-- Whatever an action succeeds with meets the predicate.
record Gives {S B : Type 0} (P : B → Type 0) (m : Action S B) : Type 0 where
  gives : (s : S) (b : B) → (m s).1 ≡ ok b → P b

Gives-bind :
    {S A B : Type 0} (P : B → Type 0) (m : Action S A) (f : A → Action S B)
    → ((a : A) → Gives P (f a))
    → Gives P (m >>= f)
Gives-bind {S} {A} {B} P m f h = record { gives = λ s. after_gives (m s) }
  where
    after_gives : (x : S × Outcome A) (b : B) → (after x f).1 ≡ ok b → P b
    after_gives (s, ok a) b e = (h a).gives s b e
    after_gives (s, err x) b e = absurd (ground arith)
    after_gives (s, panic) b e = absurd (ground arith)

new-Gives :
    (strerror : ℕ → String) (kvm : Kvm) (G : GuestMemory) (decimal : ℕ → String)
    (from_ranges : List (ℕ × ℕ) → Mapped G.Mem) (iterate : G.Mem → List Region) (num_cpus : ℕ)
    → Gives (IsFresh G decimal) (new strerror kvm G decimal from_ranges iterate num_cpus)
unfolding new
new-Gives strerror kvm G decimal from_ranges iterate num_cpus =
    let P = IsFresh G decimal in
    Gives-bind P (kvm_call kvm.open_kvm) _ λ _. Gives-bind P (kvm_call kvm.create_vm) _ λ _.
      Gives-bind P (kvm_call kvm.create_irq_chip) _ λ _.
        Gives-bind P (kvm_call kvm.create_pit2) _ λ _.
          Gives-bind P (lift (new_memory from_ranges memory_size)) _ λ memory.
            Gives-bind P (setup_memory_region kvm.refuses 0 (iterate memory.memory)) _ λ _.
              Gives-bind P (lift (create_vcpus strerror kvm num_cpus)) _ λ vcpus.
                Gives-bind P (lift (clone_vmfd strerror kvm)) _
                  λ _. record { gives = λ s b e. subst P (ok_inj _ b e) (refl, refl, refl, refl) }

pub new-IsFresh :
    (strerror : ℕ → String) (kvm : Kvm) (G : GuestMemory) (decimal : ℕ → String)
    (from_ranges : List (ℕ × ℕ) → Mapped G.Mem) (iterate : G.Mem → List Region) (num_cpus : ℕ)
    (slots : List MemorySlot) (self : VirtualMachine G decimal)
    → (new strerror kvm G decimal from_ranges iterate num_cpus slots).1 ≡ ok self
    → IsFresh G decimal self
new-IsFresh strerror kvm G decimal from_ranges iterate num_cpus slots self =
    (new-Gives strerror kvm G decimal from_ranges iterate num_cpus).gives slots self

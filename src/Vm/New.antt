-- ===== src/Vm/New.antt =====
-- rust-hypervisor/src/vm.rs: `VirtualMachine::new` and its helper. The answers of KVM and of the host's memory are
-- arguments; what the calls leave in KVM is the list of memory slots.
pub mod Fresh
pub mod Tests
use mo_vm.Common.{
  ℕ, zero, suc, ◌-◌, ◌^◌, String, Bool, true, false, Option, none, some, List, [], ◌∷◌, ◌⊎◌, inl,
  inr, counted,
}
use mo_vm.Error.{kvm_error, io_error, other, HypervisorError, Outcome, ok, err, panic}
use mo_vm.Error.Try.{traverse}
use mo_vm.Error.Action.{Action, return, fail, after, ◌>>=◌, ◌>>◌}
use mo_vm.GuestMemory.{GuestMemory}
use mo_vm.Memory.{
  memory_size, GuestMemoryRegions, Mapped, Region, MemorySlot, setup_memory_region,
  new as new_memory,
}
use mo_vm.Vcpu.{Vcpu, VcpuFd, new as new_vcpu}
use mo_vm.Vm.{VirtualMachine}

-- An errno for each call that fails. `set_clock` is called if `get_clock` worked.
pub record Kvm : Type 0 where
  pub open_kvm : Option ℕ
  pub create_vm : Option ℕ
  pub create_irq_chip : Option ℕ
  pub create_pit2 : Option ℕ
  pub refuses : MemorySlot → Option ℕ
  pub create_vcpu : ℕ → ℕ ⊎ VcpuFd
  pub open_kvm_again : Option ℕ
  pub create_second_vm : Option ℕ
  pub get_clock : Option ℕ
  pub set_clock : Option ℕ

abbrev pub Slots : Type 0
Slots = List MemorySlot

-- `map_err(HypervisorError::KvmError)?`
abbrev pub kvm_call : Option ℕ → Action Slots (Unit {0})
kvm_call none = return tt
kvm_call (some errno) = fail (kvm_error errno)

abbrev pub lift : {A : Type 0} → Outcome A → Action Slots A
lift outcome slots = (slots, outcome)

module _ (strerror : ℕ → String) (kvm : Kvm) where
  -- `map_err(|e| io::Error::new(ErrorKind::Other, e))?`
  abbrev io_call : Option ℕ → Outcome (Unit {0})
  io_call none = ok tt
  io_call (some errno) = err (io_error (record { kind = other; message = strerror errno }))

  -- The second machine, and whether it has the clock of the first.
  unfoldable pub clone_vmfd : Outcome Bool
  clone_vmfd = elim (io_call kvm.open_kvm_again) [
    | err e ↦ err e
    | panic ↦ panic
    | ok _ ↦ elim (io_call kvm.create_second_vm) [
      | err e ↦ err e
      | panic ↦ panic
      | ok _ ↦ elim kvm.get_clock [
        | some _ ↦ ok false
        | none ↦ elim kvm.set_clock [ none ↦ ok true | some _ ↦ ok false ]
      ]
    ]
  ]

  create_vcpu : ℕ → Outcome Vcpu
  create_vcpu i = elim (kvm.create_vcpu i) [
    | inl errno ↦ err (kvm_error errno)
    | inr fd ↦ new_vcpu fd i
  ]

  -- `for i in 0..num_cpus`
  unfoldable pub create_vcpus : ℕ → Outcome (List Vcpu)
  unfolding create_vcpu
  create_vcpus num_cpus = traverse create_vcpu (counted 0 num_cpus)

  -- `from_ranges` maps host memory, and `iterate` gives its regions.
  module _ (G : GuestMemory) (decimal : ℕ → String) (from_ranges : List (ℕ × ℕ) → Mapped G.Mem)
      (iterate : G.Mem → List Region) where
    unfoldable pub new : ℕ → Action Slots (VirtualMachine G decimal)
    new num_cpus = do
      kvm_call kvm.open_kvm
      kvm_call kvm.create_vm
      kvm_call kvm.create_irq_chip
      kvm_call kvm.create_pit2
      memory ← lift (new_memory from_ranges memory_size)
      setup_memory_region kvm.refuses 0 (iterate memory.memory)
      vcpus ← lift (create_vcpus num_cpus)
      _ ← lift clone_vmfd
      return (record {
        vcpus = vcpus;
        memory = memory;
        kernel_loader = none;
        devices = [];
        num_cpus = num_cpus;
        next_irq = 5;
        running = false;
      })

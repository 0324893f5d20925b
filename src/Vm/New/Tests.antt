-- ===== src/Vm/New/Tests.antt =====
-- A machine with two vCPUs on a host where every call works but setting the clock.
use mo_vm.Common.{ℕ, refl, ◌≡◌, String, false, none, some, inr, List, [], ◌∷◌}
use mo_vm.Error.{ok}
use mo_vm.GuestMemory.Flat.{Flat, flat, zeros}
use mo_vm.Memory.{memory_size, mapped, Region}
use mo_vm.Vcpu.{Vcpu, VcpuFd}
use mo_vm.Vcpu.Tests.{fresh}
use mo_vm.Vm.New.{Kvm, new}
use mo_vm.Vm.New.Fresh.{Works, new-fresh}

abbrev text : ℕ → String
text errno = "error"

abbrev pub fd : ℕ → VcpuFd
fd i =
    let cpu : Vcpu = fresh (λ call. none) in
    record { failures = cpu.failures; regs = cpu.regs; sregs = cpu.sregs; fpu = cpu.fpu }

abbrev pub kvm : Kvm
kvm = record {
  open_kvm = none;
  create_vm = none;
  create_irq_chip = none;
  create_pit2 = none;
  refuses = λ slot. none;
  create_vcpu = λ i. inr (fd i);
  open_kvm_again = none;
  create_second_vm = none;
  get_clock = none;
  set_clock = some 22;
}

works : Works kvm fd
works = record {
  opens = refl;
  creates = refl;
  irq_chip = refl;
  pit = refl;
  takes = λ slot. refl;
  vcpus = λ i. refl;
  opens_again = refl;
  creates_second = refl;
}

abbrev pub one_region : Flat → List Region
one_region m = record { start_addr = 0; len = memory_size; host_addr = 0x7f0000000000 } ∷ []

abbrev numbered : ℕ → Vcpu
numbered i = record (fresh (λ call. none)) { id = i }

new-fresh_example : new text kvm flat text (λ rs. mapped (zeros memory_size)) one_region 2 [] ≡ (
  record {
    slot = 0;
    guest_phys_addr = 0;
    slot_size = memory_size;
    userspace_addr = 0x7f0000000000;
    flags = 0;
  }
      ∷ [],
  ok (record {
    vcpus = numbered 0 ∷ numbered 1 ∷ [];
    memory = record { memory = zeros memory_size; low_mem_size = memory_size };
    kernel_loader = none;
    devices = [];
    num_cpus = 2;
    next_irq = 5;
    running = false;
  }),
)
new-fresh_example =
    new-fresh text kvm fd works flat text (λ rs. mapped (zeros memory_size)) one_region
      (zeros memory_size) 2 refl

-- ===== src/Snapshot/Tests.antt =====
-- A vCPU as it was made, and one at a kernel's entry point.
pub mod Layouts
pub mod Files
use mo_vm.Common.{ℕ, ◌≡◌, refl, String, none, List, [], ◌∷◌}
use mo_vm.Error.{ok}
use mo_vm.Vcpu.{Vcpu, zero_regs}
use mo_vm.Vcpu.Tests.{fresh}
use mo_vm.Snapshot.{VcpuState, save_vcpu_states, restore_vcpu_states}
use mo_vm.Snapshot.Restore.{save_vcpu_states-restore}

abbrev pub cpu : Vcpu
cpu = fresh (λ call. none)

abbrev pub running : Vcpu
running = record cpu {
  regs = record zero_regs { rip = 0x100; rflags = 2; rsi = 0; rsp = 0x80000; rbp = 0x80000 };
}

abbrev pub text : ℕ → String
text errno = "error"

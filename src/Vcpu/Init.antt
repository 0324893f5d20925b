-- ===== src/Vcpu/Init.antt =====
-- What a vCPU is after `init`, and how `init` fails.
use mo_vm.Common.{
  ℕ, ◌+◌, ◌%◌, ◌/◌, ◌^◌, ◌<◌, ◌≡◌, Option, none, some, List, [], ◌∷◌, ◌++◌, arith, leb,
  if◌then◌else◌,
}
use mo_vm.Error.{Outcome, ok, err, kvm_error}
use mo_vm.Vcpu.{
  Vcpu, Segment, Sregs, Ioctl, get_regs_ioctl, set_regs_ioctl, get_sregs_ioctl, set_sregs_ioctl,
  get_fpu_ioctl, set_fpu_ioctl, set_msrs_ioctl, ioctl, init, init_regs, init_sregs, msr_entries,
  setup_msrs,
}

-- The outcome of a sequence of ioctls that stops at the first that fails.
abbrev pub first_failure : (Ioctl → Option ℕ) → List Ioctl → Outcome (Unit {0})
first_failure failures [] = ok tt
first_failure failures (call ∷ calls) = elim (failures call) [
  | some errno ↦ err (kvm_error errno)
  | none ↦ first_failure failures calls
]

-- Every error of `init` is the first failing ioctl's, in the order get and set registers, get and set
-- segments, get and set FPU, set MSRs; without one it succeeds.
pub init-first_failure :
    (entry_point boot_params : ℕ) (vcpu : Vcpu)
    → (init entry_point boot_params vcpu).1
      ≡ first_failure vcpu.failures (
          get_regs_ioctl ∷ set_regs_ioctl ∷ get_sregs_ioctl ∷ set_sregs_ioctl ∷ get_fpu_ioctl
          ∷ set_fpu_ioctl ∷ set_msrs_ioctl ∷ [])
unfolding init ioctl setup_msrs
init-first_failure entry_point boot_params vcpu = ground arith

init-Vcpu :
    (entry_point boot_params : ℕ) (vcpu : Vcpu)
    → ((call : Ioctl) → vcpu.failures call ≡ none)
    → (init entry_point boot_params vcpu).0 ≡ record vcpu {
      regs = init_regs entry_point boot_params vcpu.regs;
      sregs = init_sregs vcpu.sregs;
      fpu = record (vcpu.fpu) { fcw = 0x37f; mxcsr = 0x1f80 };
      msrs = vcpu.msrs ++ msr_entries;
    }
unfolding init ioctl setup_msrs
init-Vcpu entry_point boot_params vcpu works =
    let f = λ (call : Ioctl). works call in
    ground (
      arith,
      f get_regs_ioctl,
      f set_regs_ioctl,
      f get_sregs_ioctl,
      f set_sregs_ioctl,
      f get_fpu_ioctl,
      f set_fpu_ioctl,
      f set_msrs_ioctl,
    )

-- The linear address of an offset in a segment that grows up; past the limit it faults.
abbrev pub linear : Segment → ℕ → Option ℕ
linear seg offset = if leb offset seg.limit then some ((seg.base + offset) % 2 ^ 32) else none

-- In every segment of code, data and stack, this offset is this linear address.
abbrev pub IsFlatAt : Sregs → ℕ → Type 0
IsFlatAt sregs offset =
    (linear sregs.cs offset ≡ some offset)
    × (linear sregs.ds offset ≡ some offset)
    × (linear sregs.es offset ≡ some offset)
    × (linear sregs.fs offset ≡ some offset)
    × (linear sregs.gs offset ≡ some offset)
    × (linear sregs.ss offset ≡ some offset)

-- With every ioctl working, `init` leaves a vCPU in protected mode without paging, whose segments give
-- every 32-bit offset its own linear address, at the entry point and with the boot parameters in rsi.
pub init-IsFlatAt :
    (entry_point boot_params : ℕ) (vcpu : Vcpu) (offset : ℕ)
    → ((call : Ioctl) → vcpu.failures call ≡ none)
    → offset < 2 ^ 32
    → let t = (init entry_point boot_params vcpu).0 in
      IsFlatAt t.sregs offset
      × (t.sregs.cr0 % 2 ≡ 1)
      × (t.sregs.cr0 / 2 ^ 31 ≡ 0)
      × (t.regs.rip ≡ entry_point)
      × (t.regs.rsi ≡ boot_params)
unfolding init_sregs init_regs
init-IsFlatAt entry_point boot_params vcpu offset works lt =
    rw (init-Vcpu entry_point boot_params vcpu works) (ground arith)

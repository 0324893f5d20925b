-- ===== src/Vcpu/Tests.antt =====
-- A vCPU with all its state zero, on which every ioctl works or one fails.
use mo_vm.Common.{ℕ, ◌%◌, ◌/◌, ◌^◌, ◌≡◌, refl, Option, none, some, ◌∷◌, [], arith}
use mo_vm.Error.{kvm_error, err}
use mo_vm.Vcpu.{Vcpu, Segment, Ioctl, init, zero_regs}
use mo_vm.Vcpu.Init.{IsFlatAt, init-first_failure, init-IsFlatAt}

abbrev blank : Segment
blank = record {
  base = 0;
  limit = 0;
  selector = 0;
  type_ = 0;
  present = 0;
  dpl = 0;
  db = 0;
  s = 0;
  l = 0;
  g = 0;
  avl = 0;
  unusable = 0;
}

abbrev pub fresh : (Ioctl → Option ℕ) → Vcpu
fresh failures = record {
  id = 0;
  failures = failures;
  regs = zero_regs;
  sregs = record {
    cs = blank;
    ds = blank;
    es = blank;
    fs = blank;
    gs = blank;
    ss = blank;
    tr = blank;
    ldt = blank;
    gdt = record { base = 0; limit = 0 };
    idt = record { base = 0; limit = 0 };
    cr0 = 0;
    cr2 = 0;
    cr3 = 0;
    cr4 = 0;
    cr8 = 0;
    efer = 0;
    apic_base = 0;
    interrupt_bitmap = 0 ∷ 0 ∷ 0 ∷ 0 ∷ [];
  };
  fpu = record { fcw = 0; mxcsr = 0; other_fpu = [] };
  msrs = [];
}

init-first_failure_example : (init 0x11000 0x7000 (fresh (λ call. some 22))).1 ≡ err (kvm_error 22)
init-first_failure_example = init-first_failure 0x11000 0x7000 (fresh (λ call. some 22))

init-IsFlatAt_example :
    let t = (init 0x11000 0x7000 (fresh (λ call. none))).0 in
    IsFlatAt t.sregs 0xfee00010
    × (t.sregs.cr0 % 2 ≡ 1)
    × (t.sregs.cr0 / 2 ^ 31 ≡ 0)
    × (t.regs.rip ≡ 0x11000)
    × (t.regs.rsi ≡ 0x7000)
init-IsFlatAt_example =
    init-IsFlatAt 0x11000 0x7000 (fresh (λ call. none)) 0xfee00010 (λ call. refl) (omega arith)

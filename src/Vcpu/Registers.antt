-- ===== src/Vcpu/Registers.antt =====
-- The structures of KVM that hold a virtual CPU's registers, for rust-hypervisor/src/vcpu.rs and snapshot.rs.
use mo_vm.Common.{ℕ, List}

-- `kvm_segment`
pub record Segment : Type 0 where
  pub base : ℕ
  pub limit : ℕ
  pub selector : ℕ
  pub type_ : ℕ
  pub present : ℕ
  pub dpl : ℕ
  pub db : ℕ
  pub s : ℕ
  pub l : ℕ
  pub g : ℕ
  pub avl : ℕ
  pub unusable : ℕ

-- `kvm_dtable`
pub record Dtable : Type 0 where
  pub base : ℕ
  pub limit : ℕ

-- `kvm_regs`
pub record Regs : Type 0 where
  pub rax : ℕ
  pub rbx : ℕ
  pub rcx : ℕ
  pub rdx : ℕ
  pub rsi : ℕ
  pub rdi : ℕ
  pub rsp : ℕ
  pub rbp : ℕ
  pub r8 : ℕ
  pub r9 : ℕ
  pub r10 : ℕ
  pub r11 : ℕ
  pub r12 : ℕ
  pub r13 : ℕ
  pub r14 : ℕ
  pub r15 : ℕ
  pub rip : ℕ
  pub rflags : ℕ

abbrev pub zero_regs : Regs
zero_regs = record {
  rax = 0;
  rbx = 0;
  rcx = 0;
  rdx = 0;
  rsi = 0;
  rdi = 0;
  rsp = 0;
  rbp = 0;
  r8 = 0;
  r9 = 0;
  r10 = 0;
  r11 = 0;
  r12 = 0;
  r13 = 0;
  r14 = 0;
  r15 = 0;
  rip = 0;
  rflags = 0;
}

-- `kvm_sregs`
pub record Sregs : Type 0 where
  pub cs : Segment
  pub ds : Segment
  pub es : Segment
  pub fs : Segment
  pub gs : Segment
  pub ss : Segment
  pub tr : Segment
  pub ldt : Segment
  pub gdt : Dtable
  pub idt : Dtable
  pub cr0 : ℕ
  pub cr2 : ℕ
  pub cr3 : ℕ
  pub cr4 : ℕ
  pub cr8 : ℕ
  pub efer : ℕ
  pub apic_base : ℕ
  pub interrupt_bitmap : List ℕ

-- `kvm_fpu`
pub record Fpu : Type 0 where
  pub fcw : ℕ
  pub mxcsr : ℕ
  pub other_fpu : List ℕ

-- `kvm_msr_entry`
pub record MsrEntry : Type 0 where
  pub index : ℕ
  pub reserved : ℕ
  pub data' : ℕ

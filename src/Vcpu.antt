-- ===== src/Vcpu.antt =====
-- rust-hypervisor/src/vcpu.rs: a virtual CPU, its register state as KVM's ioctls set and get it, its
-- initial state, and the handling of an exit. `set_*` store what they are given; an ioctl that is
-- listed in `failures` fails with its errno and changes nothing.
pub mod Registers
pub mod Init
pub mod Tests
use mo_vm.Common.{
  ℕ, Option, none, some, List, [], ◌∷◌, ◌++◌, ◌==◌, if◌then◌else◌, Bool, true, false,
}
pub use mo_vm.Vcpu.Registers.{Segment, Dtable, Regs, zero_regs, Sregs, Fpu, MsrEntry}
use mo_vm.Error.{kvm_error, Outcome, ok, err, panic}
use mo_vm.Error.Action.{Action, return, ◌>>=◌, ◌>>◌}

-- The ioctls of a vCPU that the program makes.
pub data Ioctl : Type 0 where
  get_regs_ioctl set_regs_ioctl get_sregs_ioctl set_sregs_ioctl get_fpu_ioctl set_fpu_ioctl
        set_msrs_ioctl run_ioctl :
      Ioctl

-- `Vcpu`: its number, and what its file descriptor reaches. `msrs` is the log of the entries set.
pub record Vcpu : Type 0 where
  pub id : ℕ
  pub failures : Ioctl → Option ℕ
  pub regs : Regs
  pub sregs : Sregs
  pub fpu : Fpu
  pub msrs : List MsrEntry

-- What a new file descriptor of a vCPU reaches.
pub record VcpuFd : Type 0 where
  pub failures : Ioctl → Option ℕ
  pub regs : Regs
  pub sregs : Sregs
  pub fpu : Fpu

-- `Vcpu::new`
unfoldable pub new : VcpuFd → ℕ → Outcome Vcpu
new fd id = ok (record {
  id = id;
  failures = fd.failures;
  regs = fd.regs;
  sregs = fd.sregs;
  fpu = fd.fpu;
  msrs = [];
})

-- An ioctl, with `map_err(HypervisorError::KvmError)`.
unfoldable pub ioctl : {A : Type 0} → Ioctl → (Vcpu → Vcpu) → (Vcpu → A) → Action Vcpu A
ioctl call effect answer vcpu = elim (vcpu.failures call) [
  | some errno ↦ (vcpu, err (kvm_error errno))
  | none ↦ (effect vcpu, ok (answer vcpu))
]

abbrev pub get_regs : Action Vcpu Regs
get_regs = ioctl get_regs_ioctl (λ vcpu. vcpu) (λ vcpu. vcpu.regs)

abbrev pub set_regs : Regs → Action Vcpu (Unit {0})
set_regs regs = ioctl set_regs_ioctl (λ vcpu. record vcpu { regs = regs }) (λ vcpu. tt)

abbrev pub get_sregs : Action Vcpu Sregs
get_sregs = ioctl get_sregs_ioctl (λ vcpu. vcpu) (λ vcpu. vcpu.sregs)

abbrev pub set_sregs : Sregs → Action Vcpu (Unit {0})
set_sregs sregs = ioctl set_sregs_ioctl (λ vcpu. record vcpu { sregs = sregs }) (λ vcpu. tt)

abbrev pub get_fpu : Action Vcpu Fpu
get_fpu = ioctl get_fpu_ioctl (λ vcpu. vcpu) (λ vcpu. vcpu.fpu)

abbrev pub set_fpu : Fpu → Action Vcpu (Unit {0})
set_fpu fpu = ioctl set_fpu_ioctl (λ vcpu. record vcpu { fpu = fpu }) (λ vcpu. tt)

abbrev pub set_msrs : List MsrEntry → Action Vcpu (Unit {0})
set_msrs msrs = ioctl set_msrs_ioctl (λ vcpu. record vcpu { msrs = vcpu.msrs ++ msrs }) (λ vcpu. tt)

abbrev msr : ℕ → ℕ → MsrEntry
msr index value = record { index = index; reserved = 0; data' = value }

unfoldable pub msr_entries : List MsrEntry
msr_entries =
    msr 0xc0000080 0x1
    ∷ msr 0xc0000081 0x0013000800000000
    ∷ msr 0xc0000082 0x1000
    ∷ msr 0xc0000083 0x0
    ∷ msr 0xc0000084 0x0
    ∷ []

-- `Msrs::from_entries` takes five entries; it only refuses lists that are too long.
unfoldable pub setup_msrs : Action Vcpu (Unit {0})
setup_msrs = set_msrs msr_entries

unfoldable pub init_regs : ℕ → ℕ → Regs → Regs
init_regs entry_point boot_params regs = record regs {
  rflags = 0x2;
  rip = entry_point;
  rsi = boot_params;
  rsp = 0x80000;
  rbp = 0x80000;
}

unfoldable pub init_sregs : Sregs → Sregs
init_sregs sregs =
    let cs : Segment = record (sregs.cs) {
      base = 0;
      limit = 0xffffffff;
      selector = 0x8;
      type_ = 0xb;
      present = 1;
      dpl = 0;
      db = 1;
      s = 1;
      l = 0;
      g = 1;
      avl = 0;
    } in
    let data_seg : Segment = record cs { selector = 0x10; type_ = 3; limit = 0xffffffff } in
    record sregs {
      cs = cs;
      ds = data_seg;
      es = data_seg;
      fs = data_seg;
      gs = data_seg;
      ss = data_seg;
      cr3 = 0x0;
      cr4 = 0x0;
      cr0 = 0x11;
      tr = record (sregs.tr) {
        base = 0;
        limit = 0xffff;
        selector = 0x18;
        type_ = 11;
        present = 1;
        dpl = 0;
        db = 0;
        s = 0;
        l = 0;
        g = 0;
        avl = 0;
      };
      gdt = record { base = 0x1000; limit = 0xffff };
      idt = record { base = 0x2000; limit = 0xffff };
    }

unfoldable pub init : ℕ → ℕ → Action Vcpu (Unit {0})
init entry_point boot_params = do
  regs ← get_regs
  set_regs (init_regs entry_point boot_params regs)
  sregs ← get_sregs
  set_sregs (init_sregs sregs)
  fpu ← get_fpu
  set_fpu (record fpu { fcw = 0x37f; mxcsr = 0x1f80 })
  setup_msrs

-- `VcpuExit`, as far as the program names its members.
pub data VcpuExit : Type 0 where
  io_in : ℕ → List ℕ → VcpuExit
  io_out : ℕ → List ℕ → VcpuExit
  mmio_read : ℕ → List ℕ → VcpuExit
  mmio_write : ℕ → List ℕ → VcpuExit
  other_exit : ℕ → VcpuExit

-- The first byte that a port read gives the guest is 0.
abbrev zero_first : List ℕ → List ℕ
zero_first [] = []
zero_first (_ ∷ bytes) = 0 ∷ bytes

-- A vCPU and the host's standard output, which may be closed.
pub record Running : Type 0 where
  pub vcpu : Vcpu
  pub stdout : List ℕ
  pub closed : Bool

-- `stdout.write_all(data).unwrap()`, then the flush. Nothing is written for no data.
abbrev print : List ℕ → Action Running (Unit {0})
print [] w = if w.closed then (w, panic) else (w, ok tt)
print (b ∷ bs) w =
    if w.closed then (w, panic) else (record w { stdout = w.stdout ++ (b ∷ bs) }, ok tt)

-- What `run` does with the exit that KVM_RUN gave.
unfoldable pub handle_exit : VcpuExit → Action Running VcpuExit
handle_exit (io_in addr bytes) w = (w, ok (io_in addr (zero_first bytes)))
handle_exit (io_out addr bytes) w =
    if addr == 0x3f8
    then (print bytes >> return (io_out addr bytes)) w
    else (w, ok (io_out addr bytes))
handle_exit exit_reason w = elim (w.vcpu.failures get_regs_ioctl) [
  | some errno ↦ (w, err (kvm_error errno))
  | none ↦ (w, ok exit_reason)
]

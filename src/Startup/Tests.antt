-- ===== src/Startup/Tests.antt =====
-- A start with a kernel, a console and one vCPU, on a host where everything works.
use mo_vm.Common.{ℕ, ◌≡◌, refl, String, true, false, none, some, inr, [], ◌∷◌, arith}
use mo_vm.Error.{Outcome, ok}
use mo_vm.GuestMemory.Flat.{flat, zeros, zeros-IsBacked}
use mo_vm.KernelLoader.{Elf, new as new_loader}
use mo_vm.KernelLoader.Load.Loaded.{CanLoad, load_kernel-ok}
use mo_vm.Memory.{
  memory_size, mapped, ranges, setup_memory_region, set_user_memory_region, new as new_memory,
}
use mo_vm.Virtio.Mmio.{new as new_mmio}
use mo_vm.Virtio.Console.{new as new_console}
use mo_vm.Vcpu.{init, ioctl, setup_msrs, new as new_vcpu}
use mo_vm.Vcpu.Tests.{fresh}
use mo_vm.Error.Try.{traverse}
use mo_vm.Snapshot.Tests.Layouts.{regs_layout, sregs_layout, fpu_layout}
use mo_vm.Snapshot.Tests.Files.{by_name, host as files_host}
use mo_vm.Snapshot.Memory.Plain.{plain}
use mo_vm.Virtio.Block.{failed}
use mo_vm.Vm.{VirtualMachine, load_kernel, each_vcpu, add_virtio_console}
use mo_vm.Vm.Attach.{AllPlaced}
use mo_vm.Vm.Boot.{IsLoaded, load_kernel-succeeds}
use mo_vm.Vm.New.Tests.{kvm, one_region}
use mo_vm.Vm.New.{new, create_vcpus, clone_vmfd}
use mo_vm.Startup.{Args, goes_on, attached, prepared}
use mo_vm.Startup.Real.{Host, State, real}
use mo_vm.Startup.Booted.{prepared-StartsAt, prepared-AllPlaced}

abbrev digit : ℕ → String
digit n = "?"

abbrev elf : Elf
elf = record { program_headers = []; entry = 0x11000 }

abbrev host : Host flat digit
host = record {
  strerror = digit;
  kvm = kvm;
  from_ranges = λ rs. mapped (zeros memory_size);
  iterate = one_region;
  evt = λ i. none;
  stdout = record { written = []; broken_pipe = false };
  open_disk = λ path read_only. failed "no disk";
  bind = λ addr. inr "no network";
  nonblocking = none;
  parse_addr = λ addr. none;
  getrandom = inr "no entropy";
  queue_event = ok (record { count = 0; failure = none });
  exists = λ path. true;
  create_dir_all = λ path. ok tt;
  metadata = λ path. ok (record { uid = 0; gid = 0 });
  queue_events = none;
  utf8 = λ text. 114 ∷ 119 ∷ [];
  parse_elf = λ bytes. some elf;
  read_file = λ path. ok (0x7f ∷ []);
  M = plain;
  regions = λ m. [];
  with_regions = λ m rs. m;
  B = by_name;
  regs_layout = regs_layout;
  sregs_layout = sregs_layout;
  fpu_layout = fpu_layout;
  answers = files_host;
  run = λ self. (self, ok tt);
  files = [];
}

abbrev args : Args
args = record {
  kernel = "vmlinuz";
  cpus = 1;
  memory = 128;
  disk = none;
  read_only = false;
  net = none;
  peer = none;
  share = [];
  save_state = none;
  restore_state = none;
  bootloader = none;
  log_level = "info";
}

abbrev machine : VirtualMachine flat digit
machine = record {
  vcpus = fresh (λ call. none) ∷ [];
  memory = record { memory = zeros memory_size; low_mem_size = memory_size };
  kernel_loader = none;
  devices = [];
  num_cpus = 1;
  next_irq = 5;
  running = false;
}

abbrev with_console : VirtualMachine flat digit
with_console =
    (add_virtio_console flat digit none (record { written = []; broken_pipe = false }) machine).0

attached_machine : attached (real flat digit host) (λ path. none) args ≡ goes_on (with_console, [])
unfolding attached new create_vcpus clone_vmfd traverse new_vcpu new_memory ranges
    setup_memory_region set_user_memory_region add_virtio_console new_mmio new_console
attached_machine = refl

can_load :
    CanLoad flat memory_size
      (λ bytes. some elf)
      (0x7f ∷ [])
      (114 ∷ 119 ∷ [])
      elf
      (zeros memory_size)
can_load = record {
  parses = refl;
  fits = omega arith;
  backed = zeros-IsBacked memory_size (omega arith);
  headers = tt;
  cmdline_room = omega arith;
}

abbrev booting : VirtualMachine flat digit × Outcome (Unit {0})
booting =
    load_kernel flat digit (λ text. 114 ∷ 119 ∷ []) (λ bytes. some elf) (ok (0x7f ∷ []))
      with_console

booting-ok : booting.1 ≡ ok tt
unfolding each_vcpu init ioctl setup_msrs add_virtio_console new_mmio new_console
booting-ok =
    let (mem, e, _) =
      load_kernel-ok flat memory_size (λ bytes. some elf) new_loader (0x7f ∷ []) (114 ∷ 119 ∷ [])
        elf (zeros memory_size) can_load (omega arith) in
    load_kernel-succeeds flat digit (λ text. 114 ∷ 119 ∷ []) (λ bytes. some elf) (ok (0x7f ∷ []))
      with_console (record { entry_point = 0x11000; cmdline = 114 ∷ 119 ∷ [] }) mem e refl

abbrev ready : State flat digit host
ready = (booting.0, [])

prepared_machine : prepared (real flat digit host) (λ path. none) args ≡ goes_on ready
unfolding prepared
prepared_machine = rw (attached_machine, booting-ok) refl

prepared-StartsAt_example : IsLoaded flat digit booting.0
prepared-StartsAt_example =
    prepared-StartsAt flat digit host (λ path. none) args ready prepared_machine

prepared-AllPlaced_example : AllPlaced flat digit booting.0.devices
prepared-AllPlaced_example =
    prepared-AllPlaced flat digit host (λ path. none) args ready prepared_machine

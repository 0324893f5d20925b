-- ===== src/Vm/Tests.antt =====
-- A machine with a console and a network device, and two counters behind windows.
use mo_vm.Common.{ℕ, ◌+◌, ◌≡◌, refl, ap, true, String, none, some, inl, false, [], ◌∷◌, arith}
use mo_vm.Error.{Outcome, ok, panic}
use mo_vm.GuestMemory.Flat.{flat, zeros, zeros-IsBacked}
use mo_vm.KernelLoader.{Elf, new as new_loader}
use mo_vm.KernelLoader.Load.Loaded.{CanLoad, load_kernel-ok}
use mo_vm.Virtio.Queue.{new_config}
use mo_vm.Virtio.{VirtioDevice}
use mo_vm.Virtio.Mmio.{VirtioMmioDevice, mmio_read, mmio_write, new as new_mmio}
use mo_vm.Vcpu.{init, ioctl, setup_msrs}
use mo_vm.Virtio.Net.{new as new_net}
use mo_vm.Vcpu.Tests.{fresh}
use mo_vm.Vm.Exit.{dispatch_read, dispatch_write}
use mo_vm.Vm.{
  Device, VirtualMachine, add_virtio_console, add_virtio_net, attach, parsed, each_vcpu, go_on,
  load_kernel, loaded, started, with_memory, net,
}
use mo_vm.Vm.Exit.Dispatch.{dispatch_write-mmio_write, dispatch_read-mmio_read}
use mo_vm.Vm.Attach.{
  kind, AllPlaced, Attaches, unattached, console_added, net_added, Attaches-AllPlaced,
  Attaches-kind,
}
use mo_vm.Vm.Boot.{IsLoaded, load_kernel-IsLoaded}

abbrev counter : VirtioDevice ℕ
counter = record {
  device_type = λ self. 2;
  get_features = λ self. 1;
  set_acked_features = λ features self. (self, ok tt);
  read_config = λ self offset buf. (buf, panic);
  write_config = λ offset bytes self. (self, ok tt);
  process_queue = λ queue_idx self. (self + 1, ok tt);
  get_queues = λ self. 16 ∷ [];
  get_interrupt_status = λ self. 0;
}

abbrev at : ℕ → VirtioMmioDevice ℕ
at base_addr = record { device = 0; base_addr = base_addr; size = 0x1000; queue_sel = 0 }

dispatch_write-mmio_write_example :
    let (dev', r) = mmio_write counter 0x50 (0 ∷ []) (at 0x2000) in
    dispatch_write counter 0x2050 (0 ∷ []) (at 0x1000 ∷ at 0x2000 ∷ [])
    ≡ (at 0x1000 ∷ dev' ∷ [], elim r [ panic ↦ panic | _ ↦ ok tt ])
dispatch_write-mmio_write_example =
    dispatch_write-mmio_write counter 0x2050 (0 ∷ []) (at 0x1000 ∷ []) (at 0x2000) [] refl
      (refl, tt) tt

dispatch_read-mmio_read_example :
    let (bytes', r) = mmio_read counter (at 0x1000) 4 (9 ∷ []) in
    dispatch_read counter 0x1004 (at 0x1000 ∷ at 0x2000 ∷ []) (9 ∷ [])
    ≡ (bytes', elim r [ panic ↦ panic | _ ↦ ok tt ])
dispatch_read-mmio_read_example =
    dispatch_read-mmio_read counter 0x1004 (9 ∷ []) [] (at 0x1000) (at 0x2000 ∷ []) refl tt
      (refl, tt)

abbrev digit : ℕ → String
digit n = "?"

abbrev bare : VirtualMachine flat digit
bare = record {
  vcpus = fresh (λ call. none) ∷ [];
  memory = record { memory = zeros 0x20000; low_mem_size = 0x20000 };
  kernel_loader = none;
  devices = [];
  num_cpus = 1;
  next_irq = 5;
  running = false;
}

abbrev with_console : VirtualMachine flat digit
with_console =
    (add_virtio_console flat digit none (record { written = []; broken_pipe = false }) bare).0

abbrev with_net : VirtualMachine flat digit
with_net =
    (add_virtio_net flat digit none
      (λ addr. inl (record { incoming = []; send_works = true; outgoing = [] })) none (λ addr. none)
      (inl (1 ∷ 1 ∷ 1 ∷ 1 ∷ 1 ∷ 1 ∷ [])) "127.0.0.1:1" "127.0.0.1:2" with_console).0

attaches : Attaches flat digit bare 2 with_net
attaches =
    net_added 1 with_console none
      (λ addr. inl (record { incoming = []; send_works = true; outgoing = [] })) none (λ addr. none)
      (inl (1 ∷ 1 ∷ 1 ∷ 1 ∷ 1 ∷ 1 ∷ [])) "127.0.0.1:1" "127.0.0.1:2"
      (console_added 0 bare none (record { written = []; broken_pipe = false }) unattached)

Attaches-AllPlaced_example : AllPlaced flat digit with_net.devices × (with_net.next_irq ≡ 7)
Attaches-AllPlaced_example = Attaches-AllPlaced flat digit bare with_net 2 (omega arith) tt attaches

abbrev placed : VirtioMmioDevice (Device flat digit)
placed = record {
  device = net (record {
    config = new_config (zeros 0x20000) 0x3000 6 2 none;
    socket = record { incoming = []; send_works = true; outgoing = [] };
    local_mac = 2 ∷ 1 ∷ 1 ∷ 1 ∷ 1 ∷ 1 ∷ [];
    peer_addr = none;
  });
  base_addr = 0x3000;
  size = 0x1000;
  queue_sel = 0;
}

Attaches-kind_example : kind flat digit placed.device ≡ kind flat digit placed.device
unfolding add_virtio_net add_virtio_console attach parsed new_net new_mmio
Attaches-kind_example =
    Attaches-kind flat digit bare with_net 2 1 1 0x3070 placed placed (omega arith) refl attaches
      refl refl refl refl

abbrev elf : Elf
elf = record { program_headers = []; entry = 0x11000 }

can_load : CanLoad flat 0x20000 (λ bytes. some elf) (0x7f ∷ []) (114 ∷ 119 ∷ []) elf (zeros 0x20000)
can_load = record {
  parses = refl;
  fits = omega arith;
  backed = zeros-IsBacked 0x20000 (omega arith);
  headers = tt;
  cmdline_room = omega arith;
}

abbrev booting : VirtualMachine flat digit × Outcome (Unit {0})
booting = load_kernel flat digit (λ text. 114 ∷ 119 ∷ []) (λ bytes. some elf) (ok (0x7f ∷ [])) bare

booting-ok : booting.1 ≡ ok tt
unfolding load_kernel loaded started with_memory each_vcpu go_on init ioctl setup_msrs
booting-ok =
    let (t, e, _) =
      load_kernel-ok flat 0x20000 (λ bytes. some elf) new_loader (0x7f ∷ []) (114 ∷ 119 ∷ []) elf
        (zeros 0x20000) can_load (omega arith) in
    ap (λ x. (loaded flat digit bare x).1) e

load_kernel-IsLoaded_example : IsLoaded flat digit booting.0
load_kernel-IsLoaded_example =
    load_kernel-IsLoaded flat digit (λ text. 114 ∷ 119 ∷ []) (λ bytes. some elf) (ok (0x7f ∷ []))
      bare booting-ok

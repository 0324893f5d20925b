-- ===== src/Vm.antt =====
-- rust-hypervisor/src/vm.rs: the machine, how devices are attached to it, and how a kernel or a boot
-- loader is loaded. The device list's mutex is never poisoned.
pub mod Exit
pub mod Attach
pub mod Boot
pub mod Run
pub mod New
pub mod State
mod Tests
use Prim.Native.String.{◌++◌ as append}
use mo_vm.Common.{
  ℕ, zero, suc, ◌+◌, ◌-◌, ◌%◌, ◌^◌, String, ◌⊎◌, Bool, true, false, Option, none, some, List, [],
  ◌∷◌, ◌++◌, ltb, leb, ◌&&◌, if◌then◌else◌,
}
use mo_vm.Error.{network_error, io_error, other, IoError, Outcome, ok, err, panic}
use mo_vm.Error.Action.{Action, return, ◌>>◌}
use mo_vm.GuestMemory.{GuestMemory}
use mo_vm.KernelLoader.{KernelLoader, Elf, load_kernel as load_kernel_into, new as new_loader}
use mo_vm.Virtio.{VirtioDevice}
use mo_vm.Virtio.Mmio.{VirtioMmioDevice, mmio_read, mmio_write, new as new_mmio}
use mo_vm.Virtio.Queue.{EventFd}
use mo_vm.Virtio.Console.{VirtioConsole, Output, virtio_console, new as new_console}
use mo_vm.Virtio.Block.{VirtioBlock, Opened, virtio_block, new as new_block}
use mo_vm.Virtio.Net.{VirtioNet, Socket, virtio_net, new as new_net}
use mo_vm.Virtio.Fs.Device.{VirtioFs, virtio_fs, new as new_fs}
use mo_vm.Virtio.Fs.{Owner}
use mo_vm.Memory.{GuestMemoryRegions}
use mo_vm.Vcpu.{Vcpu, init}
use mo_vm.Bootloader.{init_vcpu_for_real_mode, load_bootloader as load_bootloader_into}

abbrev pub kernel_cmdline : String
kernel_cmdline =
    "console=hvc0 root=/dev/vda rw virtio_mmio.device=4K@0x1000:5 virtio_mmio.device=4K@0x2000:6 virtio_mmio.device=4K@0x3000:7 virtio_mmio.device=4K@0x4000:8"

-- A boxed device. `decimal` prints a number.
module _ (G : GuestMemory) (decimal : ℕ → String) where
  pub data Device : Type 0 where
    console : VirtioConsole G → Device
    block : VirtioBlock G → Device
    net : VirtioNet G → Device
    fs : VirtioFs G → Device

  abbrev re_box : {S : Type 0} → (S → Device) → S × Outcome (Unit {0}) → Device × Outcome (Unit {0})
  re_box wrap (s, r) = (wrap s, r)

  abbrev on_device : {A : Type 0} → ((S : Type 0) → VirtioDevice S → S → A) → Device → A
  on_device f (console s) = f _ (virtio_console G) s
  on_device f (block s) = f _ (virtio_block G) s
  on_device f (net s) = f _ (virtio_net G decimal) s
  on_device f (fs s) = f _ (virtio_fs G) s

  abbrev through_device :
      ((S : Type 0) → VirtioDevice S → Action S (Unit {0})) → Action Device (Unit {0})
  through_device f (console s) = re_box console (f _ (virtio_console G) s)
  through_device f (block s) = re_box block (f _ (virtio_block G) s)
  through_device f (net s) = re_box net (f _ (virtio_net G decimal) s)
  through_device f (fs s) = re_box fs (f _ (virtio_fs G) s)

  -- Guest memory is one mapping, of which a device has a clone: what the machine writes to
  -- it, the device sees.
  abbrev pub sees : G.Mem → Device → Device
  sees mem (console s) = console (record s { config = record (s.config) { mem = mem } })
  sees mem (block s) = block (record s { config = record (s.config) { mem = mem } })
  sees mem (net s) = net (record s { config = record (s.config) { mem = mem } })
  sees mem (fs s) = fs (record s { mem = mem })

  abbrev pub all_see : G.Mem → List (VirtioMmioDevice Device) → List (VirtioMmioDevice Device)
  all_see mem [] = []
  all_see mem (dev ∷ devs) = record dev { device = sees mem dev.device } ∷ all_see mem devs

  -- The methods of a boxed device.
  abbrev pub dyn_device : VirtioDevice Device
  dyn_device = record {
    device_type = on_device (λ S D s. D.device_type s);
    get_features = on_device (λ S D s. D.get_features s);
    set_acked_features = λ features. through_device (λ S D. D.set_acked_features features);
    read_config = λ self offset buf. on_device (λ S D s. D.read_config s offset buf) self;
    write_config = λ offset bytes. through_device (λ S D. D.write_config offset bytes);
    process_queue = λ queue_idx. through_device (λ S D. D.process_queue queue_idx);
    get_queues = on_device (λ S D s. D.get_queues s);
    get_interrupt_status = on_device (λ S D s. D.get_interrupt_status s);
  }

  pub record VirtualMachine : Type 0 where
    pub vcpus : List Vcpu
    pub memory : GuestMemoryRegions G.Mem
    pub kernel_loader : Option KernelLoader
    pub devices : List (VirtioMmioDevice Device)
    pub num_cpus : ℕ
    pub next_irq : ℕ
    pub running : Bool

  -- The number that is given out; the counter is a `u32`.
  abbrev pub allocate_irq : VirtualMachine → VirtualMachine × ℕ
  allocate_irq self = (record self { next_irq = (self.next_irq + 1) % 2 ^ 32 }, self.next_irq)

  -- The new device joins the list, or its error is returned.
  attach : ℕ → (VirtualMachine × Outcome Device) → VirtualMachine × Outcome (Unit {0})
  attach base (self, ok device) =
      (record self { devices = self.devices ++ (new_mmio device base ∷ []) }, ok tt)
  attach base (self, err e) = (self, err e)
  attach base (self, panic) = (self, panic)

  abbrev pub boxed : {S : Type 0} → (S → Device) → Outcome S → Outcome Device
  boxed wrap (ok s) = ok (wrap s)
  boxed wrap (err e) = err e
  boxed wrap panic = panic

  -- `evt` is the interrupt event of the new device, if one could be made.
  unfoldable pub add_virtio_console : Option EventFd → Output → Action VirtualMachine (Unit {0})
  unfolding attach
  add_virtio_console evt stdout self =
      let (self', irq) = allocate_irq self in
      attach 0x1000 (self', ok (console (new_console G self.memory.memory 0x1000 irq evt stdout)))

  unfoldable pub add_virtio_block :
      Option EventFd → (Bool → Opened G) → Bool → Action VirtualMachine (Unit {0})
  unfolding attach
  add_virtio_block evt open' read_only self =
      let (self', irq) = allocate_irq self in
      attach 0x2000
        (self', boxed block (new_block G open' self.memory.memory 0x2000 irq evt read_only))

  -- What follows the parse of an address, unless that fails.
  parsed :
      String
      → Option String
      → VirtualMachine
      → VirtualMachine × Outcome (Unit {0})
      → VirtualMachine × Outcome (Unit {0})
  parsed what (some e) self rest = (self, err (network_error (append what e)))
  parsed what none self rest = rest

  -- `parse` is what is wrong with an address. The peer is parsed and then dropped.
  unfoldable pub add_virtio_net :
      Option EventFd
      → (String → Socket ⊎ String)
      → Option String
      → (String → Option String)
      → List ℕ ⊎ String
      → String
      → String
      → Action VirtualMachine (Unit {0})
  unfolding attach parsed
  add_virtio_net evt bind nonblocking parse getrandom local_addr peer_addr self =
      let (self', irq) = allocate_irq self in
      parsed "Invalid local address: " (parse local_addr) self' (
        parsed "Invalid peer address: " (parse peer_addr) self' (
          attach 0x3000 (
            self',
            boxed net (
                new_net G (bind local_addr) nonblocking parse getrandom self.memory.memory 0x3000
                  irq evt none),
          )))

  -- `event` is what creating the queue event gives; the others are the arguments of
  -- `VirtioFs::new`. The
  -- number that is allocated is not used.
  unfoldable pub add_virtio_fs :
      Outcome EventFd
      → String
      → Bool
      → Outcome (Unit {0})
      → Outcome Owner
      → Option IoError
      → Action VirtualMachine (Unit {0})
  unfolding attach
  add_virtio_fs event shared_dir root_exists created metadata events self =
      let (self', irq) = allocate_irq self in
      elim event [
        | err e ↦ (self', err e)
        | panic ↦ (self', panic)
        | ok queue_evt ↦ attach 0x4000 (
          self',
          boxed fs (
              new_fs G shared_dir root_exists created metadata events self.memory.memory queue_evt),
        )
      ]

  go_on :
      Vcpu × Outcome (Unit {0})
      → List Vcpu
      → List Vcpu × Outcome (Unit {0})
      → List Vcpu × Outcome (Unit {0})
  go_on (vcpu, ok _) vcpus (vcpus', r) = (vcpu ∷ vcpus', r)
  go_on (vcpu, err e) vcpus rest = (vcpu ∷ vcpus, err e)
  go_on (vcpu, panic) vcpus rest = (vcpu ∷ vcpus, panic)

  -- `for vcpu in &self.vcpus { f(vcpu)? }`
  unfoldable pub each_vcpu : Action Vcpu (Unit {0}) → Action (List Vcpu) (Unit {0})
  unfolding go_on
  each_vcpu f [] = ([], ok tt)
  each_vcpu f (vcpu ∷ vcpus) = go_on (f vcpu) vcpus (each_vcpu f vcpus)

  unfoldable pub with_memory : VirtualMachine → G.Mem → VirtualMachine
  with_memory self mem = record self {
    memory = record (self.memory) { memory = mem };
    devices = all_see mem self.devices;
  }

  started :
      VirtualMachine
      → KernelLoader
      → List Vcpu × Outcome (Unit {0})
      → VirtualMachine × Outcome (Unit {0})
  started self loader (vcpus, ok _) =
      (record self { vcpus = vcpus; kernel_loader = some loader }, ok tt)
  started self loader (vcpus, err e) = (record self { vcpus = vcpus }, err e)
  started self loader (vcpus, panic) = (record self { vcpus = vcpus }, panic)

  loaded :
      VirtualMachine
      → KernelLoader × G.Mem × Outcome (Unit {0})
      → VirtualMachine × Outcome (Unit {0})
  unfolding with_memory started
  loaded self (loader, mem, err e) = (with_memory self mem, err e)
  loaded self (loader, mem, panic) = (with_memory self mem, panic)
  loaded self (loader, mem, ok _) =
      started (with_memory self mem) loader (each_vcpu (init loader.entry_point 0x7000) self.vcpus)

  -- `utf8` gives a text's bytes; `parse` is `Elf::parse`, `file` what reading the path gives.
  unfoldable pub load_kernel :
      (String → List ℕ)
      → (List ℕ → Option Elf)
      → Outcome (List ℕ)
      → Action VirtualMachine (Unit {0})
  unfolding loaded
  load_kernel utf8 parse file self =
      loaded self
        (load_kernel_into G parse new_loader file (utf8 kernel_cmdline) self.memory.memory)

  booted : VirtualMachine → G.Mem × Outcome (Unit {0}) → VirtualMachine × Outcome (Unit {0})
  unfolding with_memory
  booted self (mem, err e) = (with_memory self mem, err e)
  booted self (mem, panic) = (with_memory self mem, panic)
  booted self (mem, ok _) =
      let self' : VirtualMachine = with_memory self mem in
      let (vcpus, r) = each_vcpu init_vcpu_for_real_mode self'.vcpus in
      (record self' { vcpus = vcpus }, r)

  unfoldable pub load_bootloader : Outcome (List ℕ) → Action VirtualMachine (Unit {0})
  unfolding booted
  load_bootloader file self = booted self (load_bootloader_into G file self.memory.memory)

-- ===== src/Startup/Real.antt =====
-- rust-hypervisor/src/main.rs over the machine of vm.rs: the methods that `main` calls, with all that the host
-- answers to them as one record. `run` is what running makes of the machine: Vm/Run has its steps.
use mo_vm.Common.{ℕ, ◌⊎◌, String, Bool, Option, List, []}
use mo_vm.Error.{IoError, Outcome, ok, err, panic}
use mo_vm.Error.Action.{Action}
use mo_vm.GuestMemory.{GuestMemory}
use mo_vm.Memory.{Mapped, Region, MemorySlot}
use mo_vm.KernelLoader.{Elf}
use mo_vm.Vcpu.{Regs, Sregs, Fpu}
use mo_vm.Virtio.Queue.{EventFd}
use mo_vm.Virtio.Console.{Output}
use mo_vm.Virtio.Block.{Opened}
use mo_vm.Virtio.Net.{Socket}
use mo_vm.Virtio.Fs.{Owner}
use mo_vm.Snapshot.Serial.{Layout}
use mo_vm.Snapshot.Memory.{Mapping}
use mo_vm.Snapshot.Manager.{Encoding, Answers}
use mo_vm.Vm.{
  VirtualMachine, add_virtio_console, add_virtio_block, add_virtio_net, add_virtio_fs, load_kernel,
  load_bootloader,
}
use mo_vm.Vm.New.{Kvm, new}
use mo_vm.Vm.State.{save_state, restore_state}
use mo_vm.Startup.{Machine}

-- The host of one start of the program.
pub record Host (G : GuestMemory) (decimal : ℕ → String) : Type 1 where
  pub strerror : ℕ → String
  pub kvm : Kvm
  pub from_ranges : List (ℕ × ℕ) → Mapped G.Mem
  pub iterate : G.Mem → List Region
  -- The interrupt events, the standard output, and the answers of opening disks and sockets.
  pub evt : ℕ → Option EventFd
  pub stdout : Output
  pub open_disk : String → Bool → Opened G
  pub bind : String → Socket ⊎ String
  pub nonblocking : Option String
  pub parse_addr : String → Option String
  pub getrandom : List ℕ ⊎ String
  -- Shared directories.
  pub queue_event : Outcome EventFd
  pub exists : String → Bool
  pub create_dir_all : String → Outcome (Unit {0})
  pub metadata : String → Outcome Owner
  pub queue_events : Option IoError
  -- Kernels and boot loaders.
  pub utf8 : String → List ℕ
  pub parse_elf : List ℕ → Option Elf
  pub read_file : String → Outcome (List ℕ)
  -- Snapshots.
  pub M : Mapping
  pub regions : G.Mem → List M.Region
  pub with_regions : G.Mem → List M.Region → G.Mem
  pub B : Encoding
  pub regs_layout : Layout Regs
  pub sregs_layout : Layout Sregs
  pub fpu_layout : Layout Fpu
  pub answers : Answers
  pub run : Action (VirtualMachine G decimal) (Unit {0})
  pub files : List (String × B.Bytes)

module _ (G : GuestMemory) (decimal : ℕ → String) (host : Host G decimal) where
  abbrev pub State : Type 0
  State = VirtualMachine G decimal × List (String × host.B.Bytes)

  abbrev pub on_machine : Action (VirtualMachine G decimal) (Unit {0}) → Action State (Unit {0})
  on_machine f (self, files) = let (self', r) = f self in ((self', files), r)

  abbrev pub with_files : List MemorySlot × Outcome (VirtualMachine G decimal) → Outcome State
  with_files (slots, ok self) = ok (self, host.files)
  with_files (slots, err e) = err e
  with_files (slots, panic) = panic

  abbrev pub saving : String → Action State (Unit {0})
  saving path (self, files) =
      let (files', r) =
        save_state G decimal host.strerror host.M host.regions host.with_regions host.B
          host.regs_layout host.sregs_layout host.fpu_layout host.answers path self files in
      ((self, files'), r)

  abbrev pub restoring : String → Action State (Unit {0})
  restoring path (self, files) =
      on_machine
        (restore_state G decimal host.strerror host.M host.regions host.with_regions host.B
          host.regs_layout host.sregs_layout host.fpu_layout host.answers path files)
        (self, files)

  -- A shared directory is known by its path; the tag and the access mode are not used.
  abbrev pub real : Machine
  real = record {
    State = State;
    new = λ cpus.
        with_files (new host.strerror host.kvm G decimal host.from_ranges host.iterate cpus []);
    add_virtio_console = on_machine (add_virtio_console G decimal (host.evt 1) host.stdout);
    add_virtio_block = λ disk read_only.
        on_machine (add_virtio_block G decimal (host.evt 2) (host.open_disk disk) read_only);
    add_virtio_net = λ local_addr peer_addr. on_machine (
        add_virtio_net G decimal (host.evt 3) host.bind host.nonblocking host.parse_addr
          host.getrandom local_addr peer_addr);
    add_virtio_fs = λ tag path read_only. on_machine (
        add_virtio_fs G decimal host.queue_event path (host.exists path) (host.create_dir_all path)
          (host.metadata path) host.queue_events);
    restore_state = restoring;
    load_kernel =
        λ path. on_machine (load_kernel G decimal host.utf8 host.parse_elf (host.read_file path));
    load_bootloader = λ path. on_machine (load_bootloader G decimal (host.read_file path));
    run = on_machine host.run;
    save_state = saving;
  }

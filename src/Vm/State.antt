-- ===== src/Vm/State.antt =====
-- rust-hypervisor/src/vm.rs: saving and restoring a machine, and what happens when it is dropped. `regions`
-- and `with_regions` are guest memory as the snapshot manager sees it.
use mo_vm.Common.{ℕ, String, false, List, [], ◌∷◌, if◌then◌else◌}
use mo_vm.Error.{io_error, other, Outcome, ok, err, panic}
use mo_vm.Error.Action.{Action}
use mo_vm.GuestMemory.{GuestMemory}
use mo_vm.Vcpu.{Regs, Sregs, Fpu}
use mo_vm.Virtio.{shutdown}
use mo_vm.Virtio.Mmio.{VirtioMmioDevice}
use mo_vm.Snapshot.Serial.{Layout}
use mo_vm.Snapshot.Memory.{Mapping}
use mo_vm.Snapshot.Manager.{Encoding, Answers, boxed_text, save_to_file, load_from_file}
use mo_vm.Vm.{Device, dyn_device, VirtualMachine, with_memory}
use mo_vm.Vm.Run.{Thread, send, stop_message}

-- `map_err(|e| HypervisorError::IoError(io::Error::new(ErrorKind::Other, e.to_string())))`
abbrev pub boxed_as_io : (ℕ → String) → Outcome (Unit {0}) → Outcome (Unit {0})
boxed_as_io strerror (ok _) = ok tt
boxed_as_io strerror (err e) =
    err (io_error (record { kind = other; message = boxed_text strerror e }))
boxed_as_io strerror panic = panic

module _ (G : GuestMemory) (decimal : ℕ → String) where
  module _ (strerror : ℕ → String) (M : Mapping) (regions : G.Mem → List M.Region)
      (with_regions : G.Mem → List M.Region → G.Mem) (B : Encoding) (regs_layout : Layout Regs)
      (sregs_layout : Layout Sregs) (fpu_layout : Layout Fpu) (host : Answers) where
    unfoldable pub save_state :
        String
        → VirtualMachine G decimal
        → List (String × B.Bytes)
        → List (String × B.Bytes) × Outcome (Unit {0})
    save_state path self files =
        let (files', r) =
          save_to_file M decimal strerror B regs_layout sregs_layout fpu_layout host path
            (regions self.memory.memory, self.vcpus) files in
        (files', boxed_as_io strerror r)

    unfoldable pub restore_state :
        String → List (String × B.Bytes) → Action (VirtualMachine G decimal) (Unit {0})
    restore_state path files self =
        let ((memory, vcpus), r) =
          load_from_file M decimal strerror B regs_layout sregs_layout fpu_layout host path files
            (regions self.memory.memory, self.vcpus) in
        (
          record (with_memory G decimal self (with_regions self.memory.memory memory)) {
            vcpus = vcpus;
          },
          boxed_as_io strerror r,
        )

  shut_down :
      List (VirtioMmioDevice (Device G decimal)) → List (VirtioMmioDevice (Device G decimal))
  shut_down [] = []
  shut_down (dev ∷ devs) =
      record dev { device = (shutdown (dyn_device G decimal) dev.device).0 } ∷ shut_down devs

  -- `Drop`, with the vCPU threads at the other ends of `message_tx`: `stop` if the machine runs, then
  -- `shutdown` of every device, whose error is logged.
  unfoldable pub drop :
      VirtualMachine G decimal × List Thread → VirtualMachine G decimal × List Thread
  unfolding shut_down
  drop (self, threads) = (
    record self { running = false; devices = shut_down self.devices },
    if self.running then send stop_message threads else threads,
  )

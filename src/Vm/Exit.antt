-- ===== src/Vm/Exit.antt =====
-- rust-hypervisor/src/vm.rs: how an MMIO exit reaches the devices, in the vCPU threads of
-- `VirtualMachine::run`. The device list's mutex is never poisoned.
pub mod Dispatch
use mo_vm.Common.{ℕ, ◌+◌, ◌-◌, ◌%◌, ◌^◌, Bool, List, [], ◌∷◌, ltb, leb, ◌&&◌, if◌then◌else◌}
use mo_vm.Error.{Outcome, ok, err, panic}
use mo_vm.Error.Action.{Action}
use mo_vm.Virtio.{VirtioDevice}
use mo_vm.Virtio.Mmio.{VirtioMmioDevice, mmio_read, mmio_write}

-- The loops over the devices at an MMIO exit. `addr` and the ends of the windows are `u64`.
module _ {S : Type 0} (D : VirtioDevice S) where
  abbrev pub hit : ℕ → VirtioMmioDevice S → Bool
  hit addr dev = leb dev.base_addr addr && ltb addr ((dev.base_addr + dev.size) % 2 ^ 64)

  -- `let _ = dev.mmio_read(…)`, then the rest of the loop, unless the device panics.
  read_on :
      List ℕ × Outcome (Unit {0})
      → (List ℕ → List ℕ × Outcome (Unit {0}))
      → List ℕ × Outcome (Unit {0})
  read_on (bytes, ok _) rest = rest bytes
  read_on (bytes, err e) rest = rest bytes
  read_on (bytes, panic) rest = (bytes, panic)

  unfoldable pub dispatch_read :
      ℕ → List (VirtioMmioDevice S) → List ℕ → List ℕ × Outcome (Unit {0})
  unfolding read_on
  dispatch_read addr [] bytes = (bytes, ok tt)
  dispatch_read addr (dev ∷ devs) bytes =
      let rest = dispatch_read addr devs in
      if hit addr dev
      then read_on (mmio_read D dev (addr - dev.base_addr) bytes) rest
      else rest bytes

  write_on :
      VirtioMmioDevice S × Outcome (Unit {0})
      → List (VirtioMmioDevice S)
      → List (VirtioMmioDevice S) × Outcome (Unit {0})
      → List (VirtioMmioDevice S) × Outcome (Unit {0})
  write_on (dev, ok _) devs (devs', r) = (dev ∷ devs', r)
  write_on (dev, err e) devs (devs', r) = (dev ∷ devs', r)
  write_on (dev, panic) devs rest = (dev ∷ devs, panic)

  unfoldable pub dispatch_write : ℕ → List ℕ → Action (List (VirtioMmioDevice S)) (Unit {0})
  unfolding write_on
  dispatch_write addr bytes [] = ([], ok tt)
  dispatch_write addr bytes (dev ∷ devs) =
      let rest = dispatch_write addr bytes devs in
      if hit addr dev
      then write_on (mmio_write D (addr - dev.base_addr) bytes dev) devs rest
      else (dev ∷ rest.0, rest.1)

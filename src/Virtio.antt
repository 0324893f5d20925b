-- ===== src/Virtio.antt =====
-- rust-hypervisor/src/virtio/mod.rs: the `VirtioDevice` trait with its default methods, as a record
-- over the state that a device works on, and the read of a configuration space that the block,
-- console and network devices share in their `read_config`.
pub mod Mmio
pub mod Config
pub mod Fs
pub mod Queue
pub mod Block
pub mod Console
pub mod Net
mod Tests
use mo_vm.Common.{
  ℕ, ◌-◌, Bool, Option, none, List, length, take, drop, splice, min, leb, if◌then◌else◌,
}
use mo_vm.Error.{memory_error, Outcome, ok, err, panic}
use mo_vm.Error.Action.{Action, return}

-- A buffer that is read into is given and returned. `S` holds the device and what it reaches.
pub record VirtioDevice (S : Type 0) : Type 0 where
  pub device_type : S → ℕ
  pub get_features : S → ℕ
  pub set_acked_features : ℕ → Action S (Unit {0})
  pub read_config : S → ℕ → List ℕ → List ℕ × Outcome (Unit {0})
  pub write_config : ℕ → List ℕ → Action S (Unit {0})
  pub process_queue : ℕ → Action S (Unit {0})
  pub get_queues : S → List ℕ
  pub get_interrupt_status : S → ℕ

-- The default methods of the trait, which no device of the program overrides.
module _ {S : Type 0} (D : VirtioDevice S) where
  unfoldable pub shutdown : Action S (Unit {0})
  shutdown = return tt

  unfoldable pub device_mmio_read : S → ℕ → List ℕ → List ℕ × Outcome (Unit {0})
  device_mmio_read s offset data' = (data', ok tt)

  unfoldable pub device_mmio_write : ℕ → List ℕ → Action S (Unit {0})
  device_mmio_write offset data' = return tt

  unfoldable pub get_mmio_region : S → Option (ℕ × ℕ)
  get_mmio_region s = none

-- `let _ = e`: an error is dropped, a panic is not.
abbrev pub ignore : Outcome (Unit {0}) → Outcome (Unit {0})
ignore (ok _) = ok tt
ignore (err e) = ok tt
ignore panic = panic

-- `read_config` of a device whose configuration space is the bytes `config`.
unfoldable pub read_config_space : List ℕ → ℕ → List ℕ → List ℕ × Outcome (Unit {0})
read_config_space config offset buf =
    if leb (length config) offset
    then (buf, err (memory_error "Invalid config space offset"))
    else let len = min (length buf) (length config - offset) in
      (splice buf 0 (take len (drop offset config)), ok tt)

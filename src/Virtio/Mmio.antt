-- ===== src/Virtio/Mmio.antt =====
-- rust-hypervisor/src/virtio/mmio.rs: the MMIO transport, which turns a guest's reads and writes of a
-- 4 KB window into calls of the device behind it. The device's mutex is never poisoned here.
pub mod Registers
mod Tests
use mo_vm.Common.{
  ℕ, ◌-◌, ◌/◌, ◌%◌, ◌^◌, List, [], length, get_or, take, splice, replicate, min, bit_and,
  to_le_bytes, from_le_bytes, leb, ltb, ◌==◌, if◌then◌else◌,
}
use mo_vm.Error.{Outcome, ok}
use mo_vm.Error.Action.{Action}
use mo_vm.Virtio.{VirtioDevice, ignore}

pub record VirtioMmioDevice (S : Type 0) : Type 0 where
  pub device : S
  pub base_addr : ℕ
  pub size : ℕ
  pub queue_sel : ℕ

unfoldable pub new : {S : Type 0} → S → ℕ → VirtioMmioDevice S
new device base_addr = record {
  device = device;
  base_addr = base_addr;
  size = 0x1000;
  queue_sel = 0;
}

-- The value that is written: four bytes, the missing ones zero.
unfoldable pub written : List ℕ → ℕ
written bytes = from_le_bytes (splice (replicate 4 0) 0 (take (min (length bytes) 4) bytes))

module _ {S : Type 0} (D : VirtioDevice S) where
  -- The value of the register at an offset below 0x100; an offset with no register reads as 0.
  unfoldable pub register : VirtioMmioDevice S → ℕ → ℕ
  register self offset =
      if offset == 0x00
      then 0x74726976
      else if offset == 0x04
      then 1
      else if offset == 0x08
      then D.device_type self.device
      else if offset == 0x0c
      then 0x4d564f4d
      else if offset == 0x10
      then bit_and (D.get_features self.device) 0xffffffff % 2 ^ 32
      else if offset == 0x14
      then D.get_features self.device / 2 ^ 32 % 2 ^ 32
      else if offset == 0x34
      then (if ltb self.queue_sel (length (D.get_queues self.device))
          then get_or (D.get_queues self.device) self.queue_sel 0
          else 0)
      else if offset == 0x44
      then 1
      else if offset == 0x60
      then D.get_interrupt_status self.device
      else 0

  unfoldable pub mmio_read : VirtioMmioDevice S → ℕ → List ℕ → List ℕ × Outcome (Unit {0})
  mmio_read self offset buf =
      if leb 0x100 offset
      then D.read_config self.device (offset - 0x100) buf
      else let bytes = to_le_bytes 4 (register self offset) in
        let len = min (length buf) (length bytes) in (splice buf 0 (take len bytes), ok tt)

  -- What a device's action leaves of the transport that it is called through.
  abbrev through :
      VirtioMmioDevice S → S × Outcome (Unit {0}) → VirtioMmioDevice S × Outcome (Unit {0})
  through self (s, r) = (record self { device = s }, r)

  unfoldable pub mmio_write : ℕ → List ℕ → Action (VirtioMmioDevice S) (Unit {0})
  mmio_write offset bytes self =
      if leb 0x100 offset
      then through self (D.write_config (offset - 0x100) bytes self.device)
      else let val = written bytes in
        if offset == 0x20
        then (let (s, r) = D.set_acked_features val self.device in through self (s, ignore r))
        else if offset == 0x30
        then (record self { queue_sel = val }, ok tt)
        else if offset == 0x50
        then (let (s, r) = D.process_queue val self.device in through self (s, ignore r))
        else (self, ok tt)

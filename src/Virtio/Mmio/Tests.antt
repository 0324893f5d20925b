-- ===== src/Virtio/Mmio/Tests.antt =====
-- The registers of a device with two queues behind a window at 0x3000.
use mo_vm.Common.{
  from_le_bytes, ◌*◌, ◌^◌, ℕ, ◌+◌, ◌≡◌, List, [], ◌∷◌, length, replicate, get_elem?, to_le_bytes,
  arith, refl,
}
use mo_vm.Error.{ok, err, unsupported_architecture}
use mo_vm.Virtio.{VirtioDevice, read_config_space}
use mo_vm.Virtio.Mmio.{VirtioMmioDevice, register, mmio_read, mmio_write}
use mo_vm.Virtio.Mmio.Registers.{mmio_read-register, mmio_read-features, queue_sel-queue_num_max}

-- A device that counts the queues it was asked to process, and fails.
abbrev counter : VirtioDevice ℕ
counter = record {
  device_type = λ self. 2;
  get_features = λ self. 0x100000001;
  set_acked_features = λ features self. (self, ok tt);
  read_config = λ self offset buf. read_config_space (7 ∷ 8 ∷ 9 ∷ []) offset buf;
  write_config = λ offset bytes self. (self, ok tt);
  process_queue = λ queue_idx self. (self + 1, err unsupported_architecture);
  get_queues = λ self. 16 ∷ 1024 ∷ [];
  get_interrupt_status = λ self. 0;
}

abbrev window : VirtioMmioDevice ℕ
window = record { device = 0; base_addr = 0x3000; size = 0x1000; queue_sel = 0 }

abbrev word : List ℕ
word = replicate 4 0xee

mmio_read-register_example :
    let (out, r) = mmio_read counter window 0x04 word in
    (r ≡ ok tt) × (length out ≡ 4) × (get_elem? out 0 ≡ get_elem? (to_le_bytes 4 1) 0)
unfolding mmio_read register
mmio_read-register_example = mmio_read-register counter window 0x04 word 0 (omega arith)

mmio_read-features_example :
    from_le_bytes (mmio_read counter window 0x10 word).0
      + 2 ^ 32 * from_le_bytes (mmio_read counter window 0x14 word).0
    ≡ 0x100000001
mmio_read-features_example = mmio_read-features counter window word word refl refl (omega arith)

queue_sel-queue_num_max_example :
    let (self', r) = mmio_write counter 0x30 (to_le_bytes 4 1) window in
    (r ≡ ok tt) × (from_le_bytes (mmio_read counter self' 0x34 word).0 ≡ 1024)
queue_sel-queue_num_max_example =
    queue_sel-queue_num_max counter window 1 word (omega arith) refl (omega arith)

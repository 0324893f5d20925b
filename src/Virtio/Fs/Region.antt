-- ===== src/Virtio/Fs/Region.antt =====
-- The MMIO region of the shared directory, and the 9P front end.
use mo_vm.Common.{
  ℕ, ◌+◌, ◌-◌, ◌^◌, ◌≤◌, ◌<◌, ◌≡◌, ◌↔◌, List, length, get_elem?, leb, ltb, if◌then◌else◌, arith,
  get_elem?-splice, length-splice, take-drop-splice,
}
use mo_vm.Error.{ok, err, panic, io_error, invalid_input, unsupported}
use mo_vm.Virtio.Fs.{FsState, mmio_read, mmio_write, process_9p, invalid_offset}

-- A write that lies within the region succeeds; a read of as many bytes at the same offset then gives
-- what was written, and every other byte of the region, and its length, is as before.
pub mmio_read-mmio_write :
    (self : FsState) (offset : ℕ) (bytes buf : List ℕ) (i : ℕ)
    → offset + length bytes ≤ length self.mmio_data
    → length self.mmio_data < 2 ^ 64
    → length buf ≡ length bytes
    → let (self', r) = mmio_write offset bytes self in
      (r ≡ ok tt)
      × (mmio_read self' offset buf ≡ (bytes, ok tt))
      × (length self'.mmio_data ≡ length self.mmio_data)
      × (get_elem? self'.mmio_data i ≡ (
          if leb offset i
          then if ltb (i - offset) (length bytes)
            then get_elem? bytes (i - offset)
            else get_elem? self.mmio_data i
          else get_elem? self.mmio_data i))
unfolding mmio_read mmio_write
mmio_read-mmio_write self offset bytes buf i room small same = ground (
  arith,
  same,
  length-splice self.mmio_data offset bytes,
  take-drop-splice self.mmio_data offset bytes,
  get_elem?-splice self.mmio_data offset bytes i,
)

-- For an offset and a length of 64 bits, a write outside the region is refused and changes nothing,
-- unless the sum of the two wraps round to an end inside the region: then it panics.
pub mmio_write_outside :
    (self : FsState) (offset : ℕ) (bytes : List ℕ)
    → offset < 2 ^ 64
    → length bytes < 2 ^ 64
    → length self.mmio_data < offset + length bytes
    → mmio_write offset bytes self ≡ (
        if leb (2 ^ 64) (offset + length bytes)
        then if leb (offset + length bytes - 2 ^ 64) (length self.mmio_data)
          then (self, panic)
          else (self, err invalid_offset)
        else (self, err invalid_offset))
unfolding mmio_write
mmio_write_outside self offset bytes h k out = ground arith

-- No 9P message is served: one shorter than 4 bytes is invalid, one longer than 4 bytes is not
-- supported, and one of exactly 4 bytes panics.
pub process_9p_lem :
    (message : List ℕ)
    → ((process_9p message ≡ panic) ↔ (length message ≡ 4))
      × ((process_9p message
            ≡ err (io_error (record { kind = invalid_input; message = "Invalid message" })))
          ↔ (length message < 4))
      × ((process_9p message
            ≡ err (io_error (record { kind = unsupported; message = "Operation not supported" })))
          ↔ (4 < length message))
unfolding process_9p
process_9p_lem message = (
  (λ h. ground arith, λ h. ground arith),
  (λ h. ground arith, λ h. ground arith),
  (λ h. ground arith, λ h. ground arith),
)

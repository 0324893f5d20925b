-- ===== src/Virtio/Mmio/Registers.antt =====
-- What a driver sees of a device through the transport's registers.
use mo_vm.Common.{
  ℕ, ◌+◌, ◌*◌, ◌^◌, ◌<◌, ◌≡◌, refl, ◌∙◌, ap, List, length, get_or, get_elem?, min, to_le_bytes,
  from_le_bytes, ltb, if◌then◌else◌, arith, get_or-default, list_ext, get_elem?-none,
  from_le_bytes-to_le_bytes, copy_prefix, bit_and_mask,
}
use mo_vm.Error.{ok}
use mo_vm.Virtio.{VirtioDevice}
use mo_vm.Virtio.Mmio.{VirtioMmioDevice, register, mmio_read, mmio_write, written}

module _ {S : Type 0} (D : VirtioDevice S) (self : VirtioMmioDevice S) where
  -- A read below the configuration space succeeds, and puts the register's low bytes into the buffer,
  -- four at most; the rest of the buffer and its length stay.
  pub mmio_read-register :
      (offset : ℕ) (buf : List ℕ) (i : ℕ)
      → offset < 0x100
      → let (out, r) = mmio_read D self offset buf in
        (r ≡ ok tt)
        × (length out ≡ length buf)
        × (get_elem? out i ≡ (
            if ltb i (min (length buf) 4)
            then get_elem? (to_le_bytes 4 (register D self offset)) i
            else get_elem? buf i))
  unfolding mmio_read
  mmio_read-register offset buf i h =
      ground
        (arith, copy_prefix buf (to_le_bytes 4 (register D self offset)) (min (length buf) 4) i)

  -- A buffer of four bytes takes the whole register.
  pub mmio_read-word :
      (offset : ℕ) (buf : List ℕ)
      → offset < 0x100
      → length buf ≡ 4
      → (mmio_read D self offset buf).0 ≡ to_le_bytes 4 (register D self offset)
  mmio_read-word offset buf h k =
      list_ext (mmio_read D self offset buf).0 (to_le_bytes 4 (register D self offset)) λ i.
        let (_, _, e) = mmio_read-register offset buf i h in
        ground (
          arith,
          e,
          k,
          get_elem?-none buf i,
          get_elem?-none (to_le_bytes 4 (register D self offset)) i,
        )

  abbrev read_word : ℕ → List ℕ → ℕ
  read_word offset buf = from_le_bytes (mmio_read D self offset buf).0

  read_word-register :
      (offset : ℕ) (buf : List ℕ)
      → offset < 0x100
      → length buf ≡ 4
      → register D self offset < 2 ^ 32
      → read_word offset buf ≡ register D self offset
  read_word-register offset buf h k small =
      ap from_le_bytes (mmio_read-word offset buf h k)
      ∙ from_le_bytes-to_le_bytes 4 (register D self offset) small

  -- The two feature registers, read with four-byte buffers, give back all feature bits of a device, of
  -- which there are at most 64.
  pub mmio_read-features :
      (lo hi : List ℕ)
      → length lo ≡ 4
      → length hi ≡ 4
      → D.get_features self.device < 2 ^ 64
      → from_le_bytes (mmio_read D self 0x10 lo).0
          + 2 ^ 32 * from_le_bytes (mmio_read D self 0x14 hi).0
        ≡ D.get_features self.device
  unfolding register
  mmio_read-features lo hi h k small =
      let (q, e, lt) = bit_and_mask 32 (D.get_features self.device) in
      omega (
        arith,
        e,
        read_word-register 0x10 lo (omega arith) h (omega arith),
        read_word-register 0x14 hi (omega arith) k (omega arith),
      )

  register-queue_num_max : register D self 0x34 ≡ get_or (D.get_queues self.device) self.queue_sel 0
  unfolding register
  register-queue_num_max =
      ground (arith, get_or-default (D.get_queues self.device) self.queue_sel 0)

written_word : (q : ℕ) → q < 2 ^ 32 → written (to_le_bytes 4 q) ≡ q
unfolding written
written_word q small = from_le_bytes-to_le_bytes 4 q small

module _ {S : Type 0} (D : VirtioDevice S) (self : VirtioMmioDevice S) where
  -- After a driver selects a queue by a number of 32 bits, which succeeds, the size register, read
  -- with a buffer of four bytes, is the size of that queue if that has 32 bits, and 0 if the device
  -- has no such queue.
  pub queue_sel-queue_num_max :
      (q : ℕ) (buf : List ℕ)
      → q < 2 ^ 32
      → length buf ≡ 4
      → get_or (D.get_queues self.device) q 0 < 2 ^ 32
      → (let (self', r) = mmio_write D 0x30 (to_le_bytes 4 q) self in
          (r ≡ ok tt)
          × (from_le_bytes (mmio_read D self' 0x34 buf).0 ≡ get_or (D.get_queues self.device) q 0))
  unfolding mmio_write
  queue_sel-queue_num_max q buf small k fits = rw (written_word q small) (
    refl,
    read_word-register D (record self { queue_sel = q }) 0x34 buf (omega arith) k
          (omega (arith, register-queue_num_max D (record self { queue_sel = q })))
        ∙ register-queue_num_max D (record self { queue_sel = q }),
  )

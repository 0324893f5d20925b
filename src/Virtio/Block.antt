-- ===== src/Virtio/Block.antt =====
-- rust-hypervisor/src/virtio/block.rs: the block device. The disk image is a `File` of the standard
-- library. `u64` arithmetic wraps. The disk's mutex is never poisoned.
pub mod Disk
pub mod ReadOnly
pub mod Requests
pub mod Sectors
use Prim.Native.String.{◌++◌ as append}
use mo_vm.Common.{
  ℕ, ◌+◌, ◌-◌, ◌*◌, ◌/◌, ◌%◌, ◌^◌, Bool, String, Option, none, some, List, [], ◌∷◌, ◌++◌, length,
  replicate, zeroed, bit_or, to_le_bytes, from_le_bytes, ltb, ◌==◌, if◌then◌else◌, map,
}
use mo_vm.Error.{memory_error, io_error, other, IoError, Outcome, ok, err, panic}
use mo_vm.Error.Action.{Action, return, fail, ◌>>◌, ◌>>=◌}
use mo_vm.GuestMemory.{GuestMemory}
use mo_vm.Virtio.{VirtioDevice, read_config_space}
use mo_vm.Virtio.Queue.{
  Descriptor, Chain, Yield, Queue, EventFd, VirtioDeviceConfig, new_config, signal, Loop, add_used,
  Flow, next, drain,
}
use mo_vm.Virtio.Block.Disk.{File, seek, read_exact, write_all}

abbrev pub request_in : ℕ
request_in = 0

abbrev pub request_out : ℕ
request_out = 1

abbrev pub request_flush : ℕ
request_flush = 4

abbrev pub status_ok : ℕ
status_ok = 0

abbrev pub status_ioerr : ℕ
status_ioerr = 1

abbrev pub status_unsupp : ℕ
status_unsupp = 2

-- The bytes of `BlockConfig`, field by field as the packed struct lays them out.
unfoldable pub config_bytes : ℕ → ℕ → List ℕ
config_bytes disk_size block_size =
    to_le_bytes 8 (disk_size / block_size)
    ++ (to_le_bytes 4 131072
        ++ (to_le_bytes 4 32
            ++ (to_le_bytes 2 0
                ++ (16 ∷ 63 ∷ [])
                ++ (to_le_bytes 4 block_size
                    ++ ((0 ∷ 0 ∷ []) ++ to_le_bytes 2 512 ++ to_le_bytes 4 0 ++ replicate 28 0)))))

unfoldable pub block_features : Bool → ℕ
block_features read_only =
    let features : ℕ = bit_or (bit_or (bit_or (2 ^ 32) (2 ^ 6)) (2 ^ 9)) (2 ^ 10) in
    if read_only then bit_or features (2 ^ 5) else features

-- `match req_type`: read, write, flush, and any other request.
unfoldable pub on_type : {A : Type 0} → ℕ → A → A → A → A → A
on_type req_type on_in on_out on_flush on_other =
    if req_type == request_in
    then on_in
    else if req_type == request_out
    then on_out
    else if req_type == request_flush
    then on_flush
    else on_other

module _ (G : GuestMemory) where
  pub record VirtioBlock : Type 0 where
    pub config : VirtioDeviceConfig G.Mem
    pub disk : File
    pub disk_size : ℕ
    pub block_size : ℕ
    pub read_only : Bool

  pub data Opened : Type 0 where
    opened : File → Opened
    failed : String → Opened

  -- `open read_only` is what opening the disk image gives.
  unfoldable pub new : (Bool → Opened) → G.Mem → ℕ → ℕ → Option EventFd → Bool → Outcome VirtioBlock
  new open' mem guest_mem irq evt read_only = elim (open' read_only) [
    | opened file ↦ ok (record {
      config = new_config mem guest_mem irq 1 evt;
      disk = file;
      disk_size = file.size;
      block_size = 512;
      read_only = read_only;
    })
    | failed e ↦
        err (io_error (record { kind = other; message = append "Failed to open disk image: " e }))
  ]

  -- What a request works on: guest memory, the used entries, and the disk.
  abbrev pub Request : Type 0
  Request = Loop G.Mem File

  -- The bytes of guest memory at an address, or zeros and whatever a failed read left.
  abbrev pub peek : ℕ → ℕ → Request → List ℕ × Option String
  peek n addr s = G.read_slice s.mem (zeroed n) addr

  abbrev on_disk :
      {A : Type 0}
      → Request
      → File × Option IoError
      → (Request → Request × Outcome A)
      → Request × Outcome A
  on_disk s (disk, none) k = k (record s { world = disk })
  on_disk s (disk, some e) k = (record s { world = disk }, err (io_error e))

  -- `SeekFrom::Start(sector * self.block_size as u64)`
  abbrev pub disk_offset : ℕ → ℕ → ℕ
  disk_offset block_size sector = sector * block_size % 2 ^ 64

  -- What the device reads from a file and from memory, and the buffer's length of a request.
  abbrev pub buf_len : Descriptor → ℕ
  buf_len desc = desc.len - 16

  module _ (block_size : ℕ) where
    -- `handle_read`, which reports every error.
    finish_read :
        Descriptor → Request → File × List ℕ × Option IoError → Request × Outcome (Unit {0})
    finish_read desc s (disk, buf, some e) = (record s { world = disk }, err (io_error e))
    finish_read desc s (disk, buf, none) =
        if ltb (desc.addr + 16) (2 ^ 64)
        then (let (mem, r) = G.write_slice s.mem buf (desc.addr + 16) in
            (
              record s { mem = mem; world = disk },
              elim r [ none ↦ ok tt | some e ↦ err (memory_error e) ],
            ))
        else (record s { world = disk }, err (memory_error "Invalid descriptor address"))

    unfoldable pub handle_read : Descriptor → Action Request (Unit {0})
    unfolding finish_read
    handle_read desc s =
        let (sector_buf, r) = peek 8 desc.addr s in
        elim r [
          | some _ ↦ (s, err (memory_error "Failed to read sector"))
          | none ↦
              on_disk s (seek s.world (disk_offset block_size (from_le_bytes sector_buf)))
                λ t. finish_read desc t (read_exact t.world (zeroed (buf_len desc)))
        ]

    -- `handle_write`
    unfoldable pub handle_write : Descriptor → Action Request (Unit {0})
    handle_write desc s =
        let (sector_buf, r) = peek 8 desc.addr s in
        elim r [
          | some _ ↦ (s, err (memory_error "Failed to read sector"))
          | none ↦ on_disk s (seek s.world (disk_offset block_size (from_le_bytes sector_buf))) λ t.
              if ltb (desc.addr + 16) (2 ^ 64)
              then (let (buf, r') = peek (buf_len desc) (desc.addr + 16) t in
                  elim r' [
                    | some e ↦ (t, err (memory_error e))
                    | none ↦ on_disk t (write_all t.world buf) (λ u. (u, ok tt))
                  ])
              else (t, err (memory_error "Invalid descriptor address"))
        ]

    -- The same requests as `process_queue` has them inline, where every failure is dropped.
    unfoldable pub inline_read : Descriptor → Request → Request
    inline_read desc s =
        let sector = from_le_bytes (peek 8 desc.addr s).0 in
        let disk = (seek s.world (disk_offset block_size sector)).0 in
        let (disk', buf, _) = read_exact disk (zeroed (buf_len desc)) in
        record s {
          world = disk';
          mem =
              if ltb (desc.addr + 16) (2 ^ 64)
              then (G.write_slice s.mem buf (desc.addr + 16)).0
              else s.mem;
        }

    unfoldable pub inline_write : Descriptor → Request → Request
    inline_write desc s =
        let sector = from_le_bytes (peek 8 desc.addr s).0 in
        let disk = (seek s.world (disk_offset block_size sector)).0 in
        let buf =
          if ltb (desc.addr + 16) (2 ^ 64)
          then (peek (buf_len desc) (desc.addr + 16) s).0
          else zeroed (buf_len desc) in
        record s { world = (write_all disk buf).0 }

  module _ (block_size : ℕ) (read_only : Bool) where
    -- `process_request`: the status of a chain, whose descriptors are requests one by one.
    unfoldable pub process_request : List Descriptor → Action Request ℕ
    process_request [] s = (s, ok status_ok)
    process_request (desc ∷ descs) s =
        let rest = process_request descs in
        let (type_buf, r) = peek 4 desc.addr s in
        let req_type = from_le_bytes type_buf in
        elim r [
          | some _ ↦ (s, err (memory_error "Failed to read request type"))
          | none ↦
              on_type req_type ((handle_read block_size desc >> rest) s)
                (if read_only
                  then (s, ok status_ioerr)
                  else (handle_write block_size desc >> rest) s)
                (rest s) (s, ok status_unsupp)
        ]

    -- The loop over a chain's descriptors in `process_queue`.
    unfoldable pub inline_request : List Descriptor → Action Request ℕ
    inline_request [] s = (s, ok status_ok)
    inline_request (desc ∷ descs) s =
        let rest = inline_request descs in
        let (type_buf, r) = peek 4 desc.addr s in
        let req_type = from_le_bytes type_buf in
        elim r [
          | some _ ↦ (s, err (memory_error "Failed to read request type"))
          | none ↦
              on_type req_type (rest (inline_read block_size desc s))
                (if read_only then (s, ok status_ioerr) else rest (inline_write block_size desc s))
                (rest s) (s, ok status_unsupp)
        ]

    -- The status goes into the used entry as its length.
    unfoldable pub complete : Chain G.Mem → ℕ → Action Request Flow
    complete c status s =
        let (t, r) = add_used c status s in
        (
          t,
          elim r [
            | none ↦ ok next
            | some e ↦ err (memory_error (append "Failed to add used descriptor: " e))
          ],
        )

    unfoldable pub round : Chain G.Mem → Action Request Flow
    round c = inline_request c.descriptors >>= complete c

  abbrev with_first : List (Queue G.Mem) → Queue G.Mem → List (Queue G.Mem)
  with_first [] q = []
  with_first (_ ∷ qs) q = q ∷ qs

  -- The loop's state, and the device after the loop.
  abbrev pub start : VirtioBlock → Queue G.Mem → Request
  start self queue = record { mem = self.config.mem; used = queue.used; world = self.disk }

  abbrev pub drained : VirtioBlock → Queue G.Mem → Request → List (Yield G.Mem) → VirtioBlock
  drained self queue s ys = record self {
    config = record (self.config) {
      mem = s.mem;
      queues = with_first self.config.queues (record queue { yields = ys; used = s.used });
    };
    disk = s.world;
  }

  signalled : VirtioBlock × Outcome (Unit {0}) → VirtioBlock × Outcome (Unit {0})
  signalled (self, ok _) =
      let (config, r) = signal self.config in (record self { config = config }, r)
  signalled (self, err e) = (self, err e)
  signalled (self, panic) = (self, panic)

  on_queue : VirtioBlock → List (Queue G.Mem) → VirtioBlock × Outcome (Unit {0})
  unfolding signalled
  on_queue self [] = (self, err (memory_error "Queue not found"))
  on_queue self (queue ∷ _) =
      let (s, ys, r) =
        drain (round self.block_size self.read_only) queue.yields (start self queue) in
      signalled (drained self queue s ys, r)

  unfoldable pub process_queue : ℕ → Action VirtioBlock (Unit {0})
  unfolding on_queue
  process_queue queue_idx self =
      if queue_idx == 0
      then on_queue self self.config.queues
      else (self, err (memory_error "Invalid queue index for block device"))

  abbrev pub virtio_block : VirtioDevice VirtioBlock
  virtio_block = record {
    device_type = λ self. 2;
    get_features = λ self. block_features self.read_only;
    set_acked_features = λ features self. (self, ok tt);
    read_config = λ self offset buf.
        read_config_space (config_bytes self.disk_size self.block_size) offset buf;
    write_config = λ offset bytes self. (self, ok tt);
    process_queue = process_queue;
    get_queues = λ self. map (λ q. q.max_size) self.config.queues;
    get_interrupt_status = λ self. 0;
  }

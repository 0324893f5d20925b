-- ===== src/Virtio/Block/ReadOnly.antt =====
-- What a device that was opened read-only lets a guest do to the disk.
use mo_vm.Common.{ℕ, ◌-◌, ◌≡◌, refl, Bool, true, false, List, [], ◌∷◌, arith, from_le_bytes, zeroed}
use mo_vm.Error.{Outcome, ok, err, panic}
use mo_vm.GuestMemory.{GuestMemory}
use mo_vm.Virtio.Queue.{Chain, Descriptor, Yield, Queue, drain, add_used}
use mo_vm.Virtio.Queue.Drain.{drain_inv}
use mo_vm.Virtio.Block.Disk.{File, SameContent, seek, seek-SameContent, read_exact-SameContent}
use mo_vm.Virtio.Block.{
  disk_offset, drained, peek, start, VirtioBlock, Request, inline_read, inline_request, on_type,
  complete, round, process_queue, on_queue, signalled,
}

pub SameContent_trans : (f g h : File) → SameContent f g → SameContent g h → SameContent f h
SameContent_trans f g h p q = ground arith

module _ (G : GuestMemory) (block_size : ℕ) where
  inline_read-SameContent :
      (desc : Descriptor) (s : Request G)
      → SameContent s.world (inline_read G block_size desc s).world
  unfolding inline_read
  inline_read-SameContent desc s =
      let f =
        (seek s.world (disk_offset G block_size (from_le_bytes (peek G 8 desc.addr s).0))).0 in
      SameContent_trans s.world f _ (seek-SameContent s.world _)
        (read_exact-SameContent f (zeroed (desc.len - 16)))

  inline_request-SameContent :
      (descs : List Descriptor) (s : Request G)
      → SameContent s.world (inline_request G block_size true descs s).0.world
  unfolding inline_request on_type
  inline_request-SameContent [] s = ground arith
  inline_request-SameContent (desc ∷ descs) s = ground (
    arith,
    inline_read-SameContent desc s,
    inline_request-SameContent descs s,
    inline_request-SameContent descs (inline_read G block_size desc s),
  )

  round-SameContent :
      (f : File) (c : Chain G.Mem) (s : Request G)
      → SameContent f s.world
      → SameContent f (round G block_size true c s).0.world
  unfolding round complete add_used
  round-SameContent f c s p = ground (arith, inline_request-SameContent c.descriptors s)

  drain-SameContent :
      (f : File) (ys : List (Yield G.Mem)) (s : Request G)
      → SameContent f s.world
      → SameContent f (drain (round G block_size true) ys s).0.world
  drain-SameContent f =
      drain_inv _ (round G block_size true) (λ s. SameContent f s.world) (round-SameContent f)

module _ (G : GuestMemory) where
  guarded :
      (block_size : ℕ) (read_only : Bool)
      → read_only ≡ true
      → (ys : List (Yield G.Mem)) (s : Request G)
      → SameContent s.world (drain (round G block_size read_only) ys s).0.world
  guarded block_size true e ys s =
      drain-SameContent G block_size s.world ys s
        (record { size = refl; at = refl; writable = refl })
  guarded block_size false e ys s = ground arith

  signalled-disk : (x : VirtioBlock G × Outcome (Unit {0})) → (signalled G x).0.disk ≡ x.0.disk
  unfolding signalled
  signalled-disk (self, ok _) = refl
  signalled-disk (self, err e) = refl
  signalled-disk (self, panic) = refl

  on_queue-SameContent :
      (self : VirtioBlock G) (qs : List (Queue G.Mem))
      → self.read_only ≡ true
      → SameContent self.disk (on_queue G self qs).0.disk
  unfolding on_queue
  on_queue-SameContent self [] ro = ground arith
  on_queue-SameContent self (queue ∷ qs) ro =
      let (s, ys, r) =
        drain (round G self.block_size self.read_only) queue.yields (start G self queue) in
      ground (
        arith,
        signalled-disk (drained G self queue s ys, r),
        guarded self.block_size self.read_only ro queue.yields (start G self queue),
      )

-- Whatever the queue holds and however the call ends, a read-only device leaves the disk image's size
-- and bytes as they were.
pub process_queue-read_only :
    (G : GuestMemory) (self : VirtioBlock G) (queue_idx : ℕ)
    → self.read_only ≡ true
    → SameContent self.disk (process_queue G queue_idx self).0.disk
unfolding process_queue
process_queue-read_only G self queue_idx ro =
    ground (arith, on_queue-SameContent G self self.config.queues ro)

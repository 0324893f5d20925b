-- ===== src/Virtio/Fs/Device.antt =====
-- rust-hypervisor/src/virtio/fs.rs: `VirtioFs`, as a device of the MMIO transport and as the backend
-- of a vhost-user front end. The queue of a vring holds what it yields, with the text of its failure.
use Prim.Native.String.{◌++◌ as append}
use mo_vm.Common.{
  ℕ, ◌+◌, List, ◌==◌, if◌then◌else◌, ◌%◌, ◌^◌, String, Bool, Option, none, some, [], ◌∷◌, length,
  zeroed, bit_or,
}
use mo_vm.Error.{HypervisorError, other, io_error, IoError, Outcome, ok, err, panic}
use mo_vm.Error.Action.{Action}
use mo_vm.GuestMemory.{GuestMemory}
use mo_vm.Virtio.{VirtioDevice, ignore}
use mo_vm.Virtio.Queue.{Chain, EventFd, Loop, add_used, Flow, next, Yield, Queue, drain_with}
use mo_vm.Virtio.Fs.{Owner, FsState, process_9p, new as new_state}

module _ (G : GuestMemory) where
  -- `mem` is the memory that the device shares; the vrings and the queue events are never read.
  pub record VirtioFs : Type 0 where
    pub state : FsState
    pub mem : G.Mem
    pub irq_trigger : EventFd
    pub features : ℕ
    pub acked_features : ℕ

  -- `events` is what creating the two queue events gives.
  unfoldable pub new :
      String
      → Bool
      → Outcome (Unit {0})
      → Outcome Owner
      → Option IoError
      → G.Mem
      → EventFd
      → Outcome VirtioFs
  new root root_exists created metadata events mem irq_trigger =
      elim (new_state root none root_exists created metadata) [
        | err e ↦ err e
        | panic ↦ panic
        | ok state ↦ elim events [
          | some e ↦ err (io_error e)
          | none ↦ ok (record {
            state = state;
            mem = mem;
            irq_trigger = irq_trigger;
            features = 0;
            acked_features = 0;
          })
        ]
      ]

  abbrev pub virtio_fs : VirtioDevice VirtioFs
  virtio_fs = record {
    device_type = λ self. 26;
    get_features = λ self. bit_or 1 (2 ^ 32);
    set_acked_features = λ features self. (record self { acked_features = features }, ok tt);
    read_config = λ self offset buf. (zeroed (length buf), ok tt);
    write_config = λ offset bytes self. (self, ok tt);
    process_queue = λ queue_idx self. (self, ok tt);
    get_queues = λ self. 256 ∷ [];
    get_interrupt_status = λ self. 0;
  }

  abbrev pub Event : Type 0
  Event = Loop G.Mem (Unit {0})

  -- One turn of the event's loop: the chain's first descriptor is one message. A panic of `process_9p`
  -- is not caught.
  unfoldable pub answered : Chain G.Mem → ℕ → Event → Outcome (Unit {0}) → Event × Outcome Flow
  answered c len s (ok _) = ((add_used c len s).0, ok next)
  answered c len s (err e) = (s, err e)
  answered c len s panic = (s, panic)

  unfoldable pub serve : Chain G.Mem → Action Event Flow
  unfolding answered
  serve c s = elim c.descriptors [
    | [] ↦ (s, ok next)
    | desc ∷ _ ↦
        let (bytes, r) = G.read_slice s.mem (zeroed desc.len) desc.addr in
        elim r [
          | some _ ↦ (s, ok next)
          | none ↦ answered c (desc.len % 2 ^ 32) s (ignore (process_9p bytes))
        ]
  ]

  abbrev event_error : String → HypervisorError
  event_error text = io_error (record { kind = other; message = text })

  -- `self.irq_trigger.write(1)`
  trigger : VirtioFs → VirtioFs × Outcome (Unit {0})
  trigger self = elim self.irq_trigger.failure [
    | some e ↦ (self, err (event_error (append "Failed to signal irq: " e)))
    | none ↦ (
      record self {
        irq_trigger = record (self.irq_trigger) { count = self.irq_trigger.count + 1 };
      },
      ok tt,
    )
  ]

  served :
      VirtioFs
      → List (Queue G.Mem)
      → Queue G.Mem
      → Event × List (Yield G.Mem) × Outcome (Unit {0})
      → (VirtioFs × List (Queue G.Mem)) × Outcome (Unit {0})
  unfolding trigger
  served self vrings queue (s, ys, r) =
      let after : VirtioFs = record self { mem = s.mem } in
      let vrings' : List (Queue G.Mem) = record queue { yields = ys; used = s.used } ∷ vrings in
      elim r [
        | ok _ ↦ let (done, q) = trigger after in ((done, vrings'), q)
        | err e ↦ ((after, vrings'), err e)
        | panic ↦ ((after, vrings'), panic)
      ]

  on_vrings : VirtioFs → List (Queue G.Mem) → (VirtioFs × List (Queue G.Mem)) × Outcome (Unit {0})
  unfolding served trigger
  on_vrings self [] = let (after, r) = trigger self in ((after, []), r)
  on_vrings self (queue ∷ vrings) = served self vrings queue (
      drain_with (λ e. event_error (append "Queue iter error: " e)) serve queue.yields
        (record { mem = self.mem; used = queue.used; world = tt }))

  -- `handle_event` with the queues of the vrings; `input` is whether the event set has `IN`.
  unfoldable pub handle_event : ℕ → Bool → Action (VirtioFs × List (Queue G.Mem)) (Unit {0})
  unfolding on_vrings
  handle_event device_event input (self, vrings) =
      if device_event == 0
      then if input then on_vrings self vrings else ((self, vrings), ok tt)
      else ((self, vrings), err (event_error "Unexpected device event"))

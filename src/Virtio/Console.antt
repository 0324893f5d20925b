-- ===== src/Virtio/Console.antt =====
-- rust-hypervisor/src/virtio/console.rs: the console device. `Output` is the writer behind it:
-- what it was given so far, and the answer to each write. Its mutex is never poisoned.
pub mod Transmit
use Prim.Native.String.{◌++◌ as append}
use mo_vm.Common.{
  ℕ, ◌+◌, ◌%◌, ◌^◌, Bool, true, false, String, Option, none, some, List, [], ◌∷◌, ◌++◌, length,
  zeroed, to_le_bytes, ◌==◌, if◌then◌else◌, map, not, ◌||◌,
}
use mo_vm.Error.{memory_error, io_error, other, IoError, Outcome, ok, err, panic}
use mo_vm.Error.Action.{Action, return}
use mo_vm.GuestMemory.{GuestMemory}
use mo_vm.Virtio.{VirtioDevice, read_config_space}
use mo_vm.Virtio.Queue.{
  Descriptor, Chain, Yield, Queue, EventFd, VirtioDeviceConfig, new_config, signal, Loop, add_used,
  Flow, next, drain,
}

-- What was written, and whether the writer takes more. A write that fails has written nothing.
pub record Output : Type 0 where
  pub written : List ℕ
  pub broken_pipe : Bool

-- The bytes of `ConsoleConfig`.
unfoldable pub config_bytes : List ℕ
config_bytes = to_le_bytes 2 80 ++ (to_le_bytes 2 24 ++ (to_le_bytes 4 1 ++ to_le_bytes 4 0))

module _ (G : GuestMemory) where
  pub record VirtioConsole : Type 0 where
    pub config : VirtioDeviceConfig G.Mem
    pub output : Output

  unfoldable pub new : G.Mem → ℕ → ℕ → Option EventFd → Output → VirtioConsole
  new mem guest_memory irq evt output = record {
    config = new_config mem guest_memory irq 2 evt;
    output = output;
  }

  unfoldable pub process_rx_queue : Action VirtioConsole (Unit {0})
  process_rx_queue = return tt

  -- The loop's state: the writer, and `used_any`.
  abbrev pub Transmit : Type 0
  Transmit = Loop G.Mem (Output × Bool)

  -- The data of a chain's readable descriptors; a failed read leaves what `read_slice` left.
  unfoldable pub collect : G.Mem → List Descriptor → List ℕ
  collect mem [] = []
  collect mem (desc ∷ descs) =
      let rest = collect mem descs in
      if desc.is_write_only then rest else (G.read_slice mem (zeroed desc.len) desc.addr).0 ++ rest

  -- `let _ = output.write_all(&buf)`, if there is anything to write.
  unfoldable pub write_output : Output → List ℕ → Output
  write_output output [] = output
  write_output output (b ∷ bs) =
      if output.broken_pipe then output else record output { written = output.written ++ (b ∷ bs) }

  unfoldable pub transmit : Chain G.Mem → Action Transmit Flow
  transmit c s =
      let buf = collect s.mem c.descriptors in
      let t : Transmit = record s { world = (write_output s.world.0 buf, true) } in
      ((add_used c (length buf % 2 ^ 32) t).0, ok next)

  abbrev pub replace_second : List (Queue G.Mem) → Queue G.Mem → List (Queue G.Mem)
  replace_second (p ∷ _ ∷ qs) q = p ∷ q ∷ qs
  replace_second qs q = qs

  abbrev pub start : VirtioConsole → Queue G.Mem → Transmit
  start self queue = record {
    mem = self.config.mem;
    used = queue.used;
    world = (self.output, false);
  }

  abbrev pub drained : VirtioConsole → Queue G.Mem → Transmit → List (Yield G.Mem) → VirtioConsole
  drained self queue s ys = record {
    config = record (self.config) {
      mem = s.mem;
      queues = replace_second self.config.queues (record queue { yields = ys; used = s.used });
    };
    output = s.world.0;
  }

  -- After the loop: the interrupt, if a chain was taken.
  signal_used : VirtioConsole × Outcome (Unit {0}) → Bool → VirtioConsole × Outcome (Unit {0})
  signal_used (self, ok _) true =
      let (config, r) = signal self.config in (record self { config = config }, r)
  signal_used (self, r) used_any = (self, r)

  on_queue : VirtioConsole → List (Queue G.Mem) → VirtioConsole × Outcome (Unit {0})
  unfolding signal_used
  on_queue self (_ ∷ queue ∷ _) =
      let (s, ys, r) = drain transmit queue.yields (start self queue) in
      signal_used (drained self queue s ys, r) s.world.1
  on_queue self qs = (self, panic)

  unfoldable pub process_tx_queue : Action VirtioConsole (Unit {0})
  unfolding on_queue
  process_tx_queue self = on_queue self self.config.queues

  unfoldable pub process_queue : ℕ → Action VirtioConsole (Unit {0})
  process_queue queue_idx self =
      if queue_idx == 0
      then process_rx_queue self
      else if queue_idx == 1
      then process_tx_queue self
      else (self, err (memory_error "Invalid queue index"))

  abbrev pub virtio_console : VirtioDevice VirtioConsole
  virtio_console = record {
    device_type = λ self. 3;
    get_features = λ self. 1;
    set_acked_features = λ features self. (self, ok tt);
    read_config = λ self offset buf. read_config_space config_bytes offset buf;
    write_config = λ offset bytes self. (self, ok tt);
    process_queue = process_queue;
    get_queues = λ self. map (λ q. q.max_size) self.config.queues;
    get_interrupt_status = λ self. 0;
  }

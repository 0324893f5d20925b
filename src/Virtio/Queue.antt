-- ===== src/Virtio/Queue.antt =====
-- The virtqueues of a device, and `VirtioDeviceConfig` of rust-hypervisor/src/virtio/mod.rs.
-- `virtio_queue` is not part of the repository: what its iterator yields during a call, in order, is a
-- part of the queue's state, and so are the answers of `add_used`. `used` is the log of the entries
-- that `add_used` put into the used ring. A list of yields that ends is an iterator that is empty.
pub mod Drain
pub mod Payload
use Prim.Native.String.{◌++◌ as append}
use mo_vm.Common.{
  ℕ, zero, suc, ◌+◌, ◌≡◌, Bool, String, Option, none, some, List, [], ◌∷◌, ◌++◌, replicate,
}
use mo_vm.Error.{memory_error, io_error, other, Outcome, ok, err, panic, HypervisorError}
use mo_vm.Error.Action.{Action}

pub record Descriptor : Type 0 where
  pub addr : ℕ
  pub len : ℕ
  pub is_write_only : Bool

-- A descriptor chain, the answer of `add_used` for it, and what `add_used` does to guest memory.
pub record Chain (M : Type 0) : Type 0 where
  pub head_index : ℕ
  pub descriptors : List Descriptor
  pub used_error : Option String
  pub publish : M → M

-- What `queue.iter(mem)?.next()` gives, but for the end.
pub data Yield (M : Type 0) : Type 0 where
  broken : String → Yield M
  available : Chain M → Yield M

pub record Queue (M : Type 0) : Type 0 where
  pub max_size : ℕ
  pub yields : List (Yield M)
  pub used : List (ℕ × ℕ)

-- An event file descriptor: how often it was written, and the answer to a write.
pub record EventFd : Type 0 where
  pub count : ℕ
  pub failure : Option String

pub record VirtioDeviceConfig (M : Type 0) : Type 0 where
  pub mem : M
  pub guest_mem : ℕ
  pub irq : ℕ
  pub queues : List (Queue M)
  pub interrupt_evt : Option EventFd

-- `VirtioDeviceConfig::new`; `interrupt_evt` is what `EventFd::new(EFD_NONBLOCK).ok()` gives.
unfoldable pub new_config : {M : Type 0} → M → ℕ → ℕ → ℕ → Option EventFd → VirtioDeviceConfig M
new_config mem guest_mem irq num_queues interrupt_evt = record {
  mem = mem;
  guest_mem = guest_mem;
  irq = irq;
  queues = replicate num_queues (record { max_size = 1024; yields = []; used = [] });
  interrupt_evt = interrupt_evt;
}

-- `interrupt_evt.write(1)`, if there is one.
unfoldable pub signal :
    {M : Type 0} → VirtioDeviceConfig M → VirtioDeviceConfig M × Outcome (Unit {0})
signal config = elim config.interrupt_evt [
  | none ↦ (config, ok tt)
  | some evt ↦ elim evt.failure [
    | none ↦ (record config { interrupt_evt = some (record evt { count = evt.count + 1 }) }, ok tt)
    | some e ↦ (
      config,
      err (io_error (record { kind = other; message = append "Failed to signal interrupt: " e })),
    )
  ]
]

-- The state of a loop over a queue: guest memory, the used entries, and what else it works on.
pub record Loop (M W : Type 0) : Type 0 where
  pub mem : M
  pub used : List (ℕ × ℕ)
  pub world : W

-- `queue.add_used(mem, head_index, len)`, and its answer.
unfoldable pub add_used : {M W : Type 0} → Chain M → ℕ → Loop M W → Loop M W × Option String
add_used c len s = elim c.used_error [
  | none ↦ (record s { mem = c.publish s.mem; used = s.used ++ ((c.head_index, len) ∷ []) }, none)
  | some e ↦ (record s { mem = c.publish s.mem }, some e)
]

-- How a round of the loop ends.
pub data Flow : Type 0 where
  next stop : Flow

-- What follows a round: the loop goes on, or ends with what is left of the queue.
abbrev pub after_round :
    {M S : Type 0}
    → S × Outcome Flow
    → List (Yield M)
    → (S → S × List (Yield M) × Outcome (Unit {0}))
    → S × List (Yield M) × Outcome (Unit {0})
after_round (s, ok next) ys rest = rest s
after_round (s, ok stop) ys rest = (s, ys, ok tt)
after_round (s, err e) ys rest = (s, ys, err e)
after_round (s, panic) ys rest = (s, ys, panic)

-- `while let Some(chain) = queue.iter(mem).map_err(refused)?.next() { … }`, with what is left of the
-- queue.
module _ {M S : Type 0} (refused : String → HypervisorError) (round : Chain M → Action S Flow) where
  unfoldable pub drain_with : List (Yield M) → S → S × List (Yield M) × Outcome (Unit {0})
  drain_with [] s = (s, [], ok tt)
  drain_with (broken e ∷ ys) s = (s, ys, err (refused e))
  drain_with (available c ∷ ys) s = after_round (round c s) ys (drain_with ys)

-- The error of the block, console and network devices when the queue is broken, and their loop.
abbrev pub queue_error : String → HypervisorError
queue_error e = memory_error (append "Failed to iterate queue: " e)

abbrev pub drain :
    {M S : Type 0}
    → (Chain M → Action S Flow)
    → List (Yield M)
    → S
    → S × List (Yield M) × Outcome (Unit {0})
drain = drain_with queue_error

-- ===== src/Vm/Run.antt =====
-- rust-hypervisor/src/vm.rs: the threads of `VirtualMachine::run` as steps between their reads and writes
-- of what they share, in any order, and `stop`. `vcpu.run()` and the dispatch of its exit are one step; what
-- the dispatch does to the devices is `dispatch_read` and `dispatch_write`. A step in which the thread panics
-- stands for the unwraps of `vcpu.run()` and of the devices' lock, and for a device that panics. After one,
-- `thread::scope` panics when the threads have joined, and what follows it in `run` is not reached.
pub mod Steps
pub mod Undisturbed
pub mod Stopping
mod Tests
use mo_vm.Common.{ℕ, zero, suc, ◌+◌, ◌≡◌, Bool, true, false, List, [], ◌∷◌, ◌++◌, if◌then◌else◌}

pub data VmMessage : Type 0 where
  stop_message snapshot_request : VmMessage

-- Where a vCPU thread stands in its loop: about to load `running`, about to load `error_occurred`, about
-- to look for a message, in `vcpu.run()` or in the dispatch of its exit, between the report of its error and the flag, or done.
pub data Phase : Type 0 where
  at_running at_error at_message in_guest failing ended : Phase

pub record Thread : Type 0 where
  pub phase : Phase
  pub messages : List VmMessage

-- The flags, and how many error texts wait in the channel.
pub record Shared : Type 0 where
  pub running : Bool
  pub error_occurred : Bool
  pub reported : ℕ

-- Where the main thread stands in its loop.
pub data Monitor : Type 0 where
  at_channel at_error_flag at_running_flag stopping done : Monitor

pub record World : Type 0 where
  pub shared : Shared
  pub threads : List Thread
  pub monitor : Monitor

-- A step in which a vCPU fails, one in which its thread panics, or any other.
pub data Event : Type 0 where
  quiet failure panicking : Event

abbrev at : Phase → List VmMessage → Thread
at phase messages = record { phase = phase; messages = messages }

-- One step of a vCPU thread.
pub data ThreadStep : Event → Shared → Thread → Shared → Thread → Type 0 where
  sees_stop :
      (f : Shared) (ms : List VmMessage)
      → f.running ≡ false
      → ThreadStep quiet f (at at_running ms) f (at ended ms)
  sees_running :
      (f : Shared) (ms : List VmMessage)
      → f.running ≡ true
      → ThreadStep quiet f (at at_running ms) f (at at_error ms)
  sees_error :
      (f : Shared) (ms : List VmMessage)
      → f.error_occurred ≡ true
      → ThreadStep quiet f (at at_error ms) f (at ended ms)
  sees_no_error :
      (f : Shared) (ms : List VmMessage)
      → f.error_occurred ≡ false
      → ThreadStep quiet f (at at_error ms) f (at at_message ms)
  told_to_stop :
      (f : Shared) (ms : List VmMessage)
      → ThreadStep quiet f (at at_message (stop_message ∷ ms)) f (at ended ms)
  told_to_snapshot :
      (f : Shared) (ms : List VmMessage)
      → ThreadStep quiet f (at at_message (snapshot_request ∷ ms)) f (at at_running ms)
  enters_guest : (f : Shared) → ThreadStep quiet f (at at_message []) f (at in_guest [])
  leaves_guest :
      (f : Shared) (ms : List VmMessage) → ThreadStep quiet f (at in_guest ms) f (at at_running ms)
  fails :
      (f : Shared) (ms : List VmMessage)
      → ThreadStep failure f
          (at in_guest ms)
          (record f { reported = suc f.reported })
          (at failing ms)
  -- The thread ends without a report, and the flags stay.
  panics :
      (f : Shared) (ms : List VmMessage) → ThreadStep panicking f (at in_guest ms) f (at ended ms)
  raises_flag :
      (f : Shared) (ms : List VmMessage)
      → ThreadStep quiet f (at failing ms) (record f { error_occurred = true }) (at ended ms)

-- One step of the main thread.
pub data MonitorStep : Shared → Monitor → Shared → Monitor → Type 0 where
  receives :
      (f : Shared) (n : ℕ)
      → f.reported ≡ suc n
      → MonitorStep f at_channel (record f { reported = n }) stopping
  receives_none : (f : Shared) → f.reported ≡ 0 → MonitorStep f at_channel f at_error_flag
  flag_raised : (f : Shared) → f.error_occurred ≡ true → MonitorStep f at_error_flag f stopping
  flag_down :
      (f : Shared) → f.error_occurred ≡ false → MonitorStep f at_error_flag f at_running_flag
  clears_running : (f : Shared) → MonitorStep f stopping (record f { running = false }) done
  was_stopped : (f : Shared) → f.running ≡ false → MonitorStep f at_running_flag f done
  sleeps : (f : Shared) → f.running ≡ true → MonitorStep f at_running_flag f at_channel

pub data Step : Event → World → World → Type 0 where
  by_thread :
      (e : Event) (f f' : Shared) (pre : List Thread) (t t' : Thread) (post : List Thread)
      (monitor : Monitor)
      → ThreadStep e f t f' t'
      → Step e
          (record { shared = f; threads = pre ++ t ∷ post; monitor = monitor })
          (record { shared = f'; threads = pre ++ t' ∷ post; monitor = monitor })
  by_monitor :
      (f f' : Shared) (threads : List Thread) (m m' : Monitor)
      → MonitorStep f m f' m'
      → Step quiet
          (record { shared = f; threads = threads; monitor = m })
          (record { shared = f'; threads = threads; monitor = m' })

abbrev count : Event → ℕ → ℕ
count quiet n = n
count failure n = suc n
count panicking n = suc n

-- `w` comes about from `start` by steps in which vCPUs fail or their threads panic, `n` times in all.
pub data Reaches (start : World) : ℕ → World → Type 0 where
  begins : Reaches start 0 start
  then_step :
      (e : Event) (n : ℕ) (w w' : World)
      → Reaches start n w
      → Step e w w'
      → Reaches start (count e n) w'

abbrev fresh_threads : ℕ → List Thread
fresh_threads zero = []
fresh_threads (suc n) = at at_running [] ∷ fresh_threads n

-- When the threads of `num_cpus` vCPUs have been spawned. The channels are new.
unfoldable pub spawned : ℕ → World
spawned num_cpus = record {
  shared = record { running = true; error_occurred = false; reported = 0 };
  threads = fresh_threads num_cpus;
  monitor = at_channel;
}

abbrev pub send : VmMessage → List Thread → List Thread
send message [] = []
send message (t ∷ ts) = record t { messages = t.messages ++ (message ∷ []) } ∷ send message ts

-- `stop`
unfoldable pub stop : World → World
stop w =
    if w.shared.running
    then record w {
      shared = record (w.shared) { running = false };
      threads = send stop_message w.threads;
    }
    else w

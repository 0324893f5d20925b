-- ===== src/Virtio/Console/Transmit.antt =====
-- What the guest sends is what the writer gets.
use mo_vm.Common.{
  not, Bool-cases, inl, inr, ℕ, ◌+◌, ◌≡◌, refl, Bool, true, false, List, [], ◌∷◌, ◌++◌, length, min,
  if◌then◌else◌, arith, none, some, ◌∙◌, ap, ap₂, sym,
}
use mathlib.Core.List.{append_assoc, append-nil}
use mo_vm.Error.{Outcome, ok, err, panic}
use mo_vm.GuestMemory.{GuestMemory}
use mo_vm.Virtio.Queue.Payload.{payload, read_slice-data_of}
use mo_vm.Virtio.Queue.{next, Descriptor, Chain, Queue, add_used, signal}
use mo_vm.Virtio.Queue.Drain.{all_available, each, drain-each}
use mo_vm.Virtio.Console.{
  VirtioConsole, Output, Transmit, collect, write_output, transmit, process_tx_queue, on_queue,
  signal_used, start, drained,
}

module _ (G : GuestMemory) where
  step : Chain G.Mem → Transmit G → Transmit G
  step c s = (transmit G c s).0

  -- The device may read the descriptor.
  abbrev pub readable : Descriptor → Bool
  readable d = not d.is_write_only

  -- The data of the device-readable descriptors of the chains in order, each read from the
  -- memory that the entries before it left.
  abbrev pub sent : G.Mem → List (Chain G.Mem) → List ℕ
  sent mem [] = []
  sent mem (c ∷ cs) = payload G readable mem c.descriptors ++ sent (c.publish mem) cs

  collect-payload :
      (mem : G.Mem) (ds : List Descriptor) → collect G mem ds ≡ payload G readable mem ds
  unfolding collect
  collect-payload mem [] = refl
  collect-payload mem (d ∷ ds) = elim (Bool-cases d.is_write_only) [
    | inl wo ↦ rw (wo, readable) (collect-payload mem ds)
    | inr ro ↦ rw (ro, readable) (ap₂ ◌++◌ (read_slice-data_of G mem d) (collect-payload mem ds))
  ]

  write_output-written :
      (output : Output) (bs : List ℕ)
      → output.broken_pipe ≡ false
      → write_output G output bs ≡ record output { written = output.written ++ bs }
  unfolding write_output
  write_output-written output [] e =
      ap (λ w. record output { written = w }) (sym (append-nil output.written))
  write_output-written output (b ∷ bs) e = ground arith

  step-world :
      (c : Chain G.Mem) (s : Transmit G)
      → ((step c s).world
          ≡ (write_output G s.world.0 (payload G readable s.mem c.descriptors), true))
        × ((step c s).mem ≡ c.publish s.mem)
  unfolding step transmit add_used
  step-world c s = rw (sym (collect-payload s.mem c.descriptors)) (ground arith)

  each-written :
      (cs : List (Chain G.Mem)) (s : Transmit G)
      → s.world.0.broken_pipe ≡ false
      → (each step cs s).world.0.written ≡ s.world.0.written ++ sent s.mem cs
  unfolding step transmit add_used
  each-written [] s e = sym (append-nil s.world.0.written)
  each-written (c ∷ cs) s e =
      let w = step-world c s in
      let buf = payload G readable s.mem c.descriptors in
      let o = write_output-written s.world.0 buf e in
      each-written cs (step c s) (ap (λ x. x.0.broken_pipe) w.0 ∙ ap (λ x. x.broken_pipe) o ∙ e)
      ∙ ap₂ (λ x m. x.0.written ++ sent m cs) w.0 w.1
      ∙ ap (λ x. x.written ++ sent (c.publish s.mem) cs) o
      ∙ append_assoc s.world.0.written buf (sent (c.publish s.mem) cs)

  each-used_any :
      (c : Chain G.Mem) (cs : List (Chain G.Mem)) (s : Transmit G)
      → (each step (c ∷ cs) s).world.1 ≡ true
  unfolding step transmit add_used
  each-used_any c [] s = ground arith
  each-used_any c (d ∷ cs) s = each-used_any d cs (step c s)

  signal_used-output :
      (x : VirtioConsole G × Outcome (Unit {0})) (used_any : Bool)
      → (signal_used G x used_any).0.output ≡ x.0.output
  unfolding signal_used
  signal_used-output (self, ok _) true = refl
  signal_used-output (self, err e) true = refl
  signal_used-output (self, panic) true = refl
  signal_used-output (self, ok _) false = refl
  signal_used-output (self, err e) false = refl
  signal_used-output (self, panic) false = refl

  -- The queues of the device, the transmit queue holding these chains.
  abbrev pub Holds : VirtioConsole G → List (Chain G.Mem) → Type 0
  Holds self cs =
      (rx : Queue G.Mem) × (n : ℕ) × (used : List (ℕ × ℕ)) × (qs : List (Queue G.Mem))
      × (self.config.queues
          ≡ rx ∷ record { max_size = n; yields = all_available cs; used = used } ∷ qs)

  transmit-step : (c : Chain G.Mem) (s : Transmit G) → transmit G c s ≡ (step c s, ok next)
  unfolding step transmit
  transmit-step c s = refl

  -- The whole call: every chain is taken, and then the interrupt is due or not.
  process_tx_queue-each :
      (self : VirtioConsole G) (cs : List (Chain G.Mem)) (h : Holds self cs)
      → let queue : Queue G.Mem = record {
        max_size = h.1;
        yields = all_available cs;
        used = h.2;
      } in
        let s = each step cs (start G self queue) in
        process_tx_queue G self ≡ signal_used G (drained G self queue s [], ok tt) s.world.1
  unfolding process_tx_queue on_queue
  process_tx_queue-each self cs (rx, n, used, qs, e) =
      let queue : Queue G.Mem = record { max_size = n; yields = all_available cs; used = used } in
      ap (on_queue G self) e
      ∙ ap (λ x. signal_used G (drained G self queue x.0 x.1, x.2) x.0.world.1)
          (drain-each _ (transmit G) step transmit-step cs (start G self queue))

  -- On a queue that only holds chains, and unless the writer is broken, the writer gets, after what it
  -- has, for every chain in order the bytes of guest memory that its device-readable descriptors name
  -- (for one outside guest memory, what the failed read leaves in a buffer of zeros), and nothing for
  -- its device-writable descriptors.
  pub process_tx_queue-sent :
      (self : VirtioConsole G) (cs : List (Chain G.Mem))
      → Holds self cs
      → self.output.broken_pipe ≡ false
      → (process_tx_queue G self).0.output.written ≡ self.output.written ++ sent self.config.mem cs
  process_tx_queue-sent self cs h open' =
      ap (λ x. x.0.output.written) (process_tx_queue-each self cs h)
      ∙ ap (λ o. o.written) (signal_used-output _ _)
      ∙ each-written cs
          (start G self (record { max_size = h.1; yields = all_available cs; used = h.2 })) open'

  signal_used-interrupt :
      (self : VirtioConsole G) (k : ℕ) (used_any : Bool)
      → self.config.interrupt_evt ≡ some (record { count = k; failure = none })
      → let x = signal_used G (self, ok tt) used_any in
        (x.1 ≡ ok tt)
        × (x.0.config.interrupt_evt
            ≡ some (record { count = if used_any then k + 1 else k; failure = none }))
  unfolding signal_used signal
  signal_used-interrupt self k true e = ground arith
  signal_used-interrupt self k false e = ground arith

  count_of :
      (cs : List (Chain G.Mem)) (k : ℕ) (s : Transmit G)
      → s.world.1 ≡ false
      → (if (each step cs s).world.1 then k + 1 else k) ≡ k + min 1 (length cs)
  count_of [] k s e = ground arith
  count_of (c ∷ cs) k s e = ground (arith, each-used_any c cs s)

  -- With a working interrupt event, a call on a queue that only holds chains succeeds and signals the
  -- guest once, or not at all if the queue is empty.
  pub process_tx_queue-interrupt :
      (self : VirtioConsole G) (cs : List (Chain G.Mem)) (k : ℕ)
      → Holds self cs
      → self.config.interrupt_evt ≡ some (record { count = k; failure = none })
      → ((process_tx_queue G self).1 ≡ ok tt)
        × ((process_tx_queue G self).0.config.interrupt_evt
            ≡ some (record { count = k + min 1 (length cs); failure = none }))
  process_tx_queue-interrupt self cs k h e =
      let queue : Queue G.Mem = record { max_size = h.1; yields = all_available cs; used = h.2 } in
      let s = each step cs (start G self queue) in
      let i = signal_used-interrupt (drained G self queue s []) k s.world.1 e in
      rw (process_tx_queue-each self cs h) (
        i.0,
        i.1
            ∙ ap (λ n. some (record { count = n; failure = none }))
                (count_of cs k (start G self queue) refl),
      )

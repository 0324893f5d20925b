-- ===== src/Virtio/Net/Send.antt =====
-- What the transmit queue sends.
use mathlib.Core.List.{append_assoc, append-nil}
use mo_vm.Common.{ℕ, ◌≡◌, refl, sym, ap₂, ◌∙◌, true, String, none, some, List, [], ◌∷◌, ◌++◌, arith}
use mo_vm.Error.{ok}
use mo_vm.GuestMemory.{GuestMemory}
use mo_vm.Virtio.Queue.Payload.{payload, read_slice-data_of}
use mo_vm.Virtio.Queue.{queue_error, next, Descriptor, Chain, Queue, add_used}
use mo_vm.Virtio.Queue.Drain.{all_available, each, drain-each, drain_inv}
use mo_vm.Virtio.Net.{
  VirtioNet, Traffic, start, collect, send_to, transmit, process_tx_queue, on_tx,
}

module _ (G : GuestMemory) where
  keeps_socket :
      (self : VirtioNet G)
      → self.peer_addr ≡ none
      → (c : Chain G.Mem) (s : Traffic G) → s.world ≡ self.socket
      → (transmit G self.peer_addr c s).0.world ≡ self.socket
  unfolding transmit send_to add_used
  keeps_socket self e c s p = ground (arith, e)

  on_tx-socket :
      (self : VirtioNet G) (queues : List (Queue G.Mem))
      → self.peer_addr ≡ none
      → (on_tx G self queues).0.socket ≡ self.socket
  unfolding on_tx
  on_tx-socket self [] e = refl
  on_tx-socket self (rx ∷ []) e = refl
  on_tx-socket self (rx ∷ queue ∷ qs) e =
      drain_inv _ (transmit G self.peer_addr) (λ s. s.world ≡ self.socket) (keeps_socket self e)
        queue.yields (start G self queue) refl

  -- A device without a peer sends nothing and receives nothing by its transmit queue,
  -- whatever it holds.
  pub process_tx_queue-no_peer :
      (self : VirtioNet G)
      → self.peer_addr ≡ none
      → (process_tx_queue G self).0.socket ≡ self.socket
  unfolding process_tx_queue
  process_tx_queue-no_peer self e = on_tx-socket self self.config.queues e

  -- One packet for each chain, of the data of all its descriptors, in order, read from the
  -- memory that the entries before it left.
  abbrev pub packets : String → G.Mem → List (Chain G.Mem) → List (List ℕ × String)
  packets peer mem [] = []
  packets peer mem (c ∷ cs) =
      (payload G (λ d. true) mem c.descriptors, peer) ∷ packets peer (c.publish mem) cs

  collect-payload :
      (mem : G.Mem) (ds : List Descriptor) → collect G mem ds ≡ payload G (λ d. true) mem ds
  unfolding collect
  collect-payload mem [] = refl
  collect-payload mem (d ∷ ds) = ap₂ ◌++◌ (read_slice-data_of G mem d) (collect-payload mem ds)

  step : String → Chain G.Mem → Traffic G → Traffic G
  step peer c s = (transmit G (some peer) c s).0

  step_sends :
      (peer : String) (c : Chain G.Mem) (s : Traffic G)
      → s.world.send_works ≡ true
      → ((step peer c s).world.send_works ≡ true)
        × ((step peer c s).mem ≡ c.publish s.mem)
        × ((step peer c s).world.outgoing
            ≡ s.world.outgoing ++ ((payload G (λ d. true) s.mem c.descriptors, peer) ∷ []))
  unfolding step transmit send_to add_used
  step_sends peer c s e = rw (sym (collect-payload s.mem c.descriptors)) (ground (arith, e))

  each-outgoing :
      (peer : String) (cs : List (Chain G.Mem)) (s : Traffic G)
      → s.world.send_works ≡ true
      → (each (step peer) cs s).world.outgoing ≡ s.world.outgoing ++ packets peer s.mem cs
  each-outgoing peer [] s e = sym (append-nil s.world.outgoing)
  each-outgoing peer (c ∷ cs) s e =
      let (works, mem, out) = step_sends peer c s e in
      each-outgoing peer cs (step peer c s) works
      ∙ ap₂ (λ o m. o ++ packets peer m cs) out mem
      ∙ append_assoc s.world.outgoing _ (packets peer (c.publish s.mem) cs)

  transmit-step :
      (peer : String) (c : Chain G.Mem) (s : Traffic G)
      → transmit G (some peer) c s ≡ (step peer c s, ok next)
  unfolding step transmit
  transmit-step peer c s = refl

  -- On a queue that only holds chains, with a peer and a socket that sends, the chains go to the peer
  -- as one packet each, in order, made of the bytes of guest memory that all the descriptors of the
  -- chain name (for one outside guest memory, what the failed read leaves in a buffer of zeros). The
  -- queue is then empty, the other queues are as before, and the call succeeds.
  pub process_tx_queue-outgoing :
      (self : VirtioNet G) (peer : String) (rx queue : Queue G.Mem) (qs : List (Queue G.Mem))
      (cs : List (Chain G.Mem))
      → self.config.queues ≡ rx ∷ queue ∷ qs
      → queue.yields ≡ all_available cs
      → self.peer_addr ≡ some peer
      → self.socket.send_works ≡ true
      → ((process_tx_queue G self).0.socket.outgoing
          ≡ self.socket.outgoing ++ packets peer self.config.mem cs)
        × ((used : List (ℕ × ℕ)) × ((process_tx_queue G self).0.config.queues
              ≡ rx ∷ record queue { yields = []; used = used } ∷ qs))
        × ((process_tx_queue G self).1 ≡ ok tt)
  unfolding process_tx_queue on_tx
  process_tx_queue-outgoing self peer rx queue qs cs e ys p works =
      let d =
        drain-each queue_error (transmit G (some peer)) (step peer) (transmit-step peer) cs
          (start G self queue) in
      rw e (rw ys (rw p (rw d (each-outgoing peer cs (start G self queue) works, (_, refl), refl))))

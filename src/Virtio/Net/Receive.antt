-- ===== src/Virtio/Net/Receive.antt =====
-- What the receive queue does with datagrams and with the guest's buffers.
use mathlib.Core.List.{append_assoc, append-nil}
use mo_vm.Common.{
  ℕ, suc, ◌<◌, ◌≡◌, refl, sym, ◌∙◌, none, List, [], ◌∷◌, ◌++◌, length, take, drop, map, arith,
}
use mo_vm.Error.{Outcome, ok}
use mo_vm.GuestMemory.{GuestMemory}
use mo_vm.Virtio.Queue.{next, stop, Chain, Yield, Queue, add_used, drain, drain_with}
use mo_vm.Virtio.Queue.Drain.{all_available}
use mo_vm.Virtio.Net.{
  VirtioNet, Received, datagram, Traffic, start, receive, process_rx_queue, on_rx,
}

module _ (G : GuestMemory) where
  -- The used ring takes an entry for each of these chains.
  abbrev pub Accepted : List (Chain G.Mem) → Type 0
  Accepted [] = Unit {0}
  Accepted (c ∷ cs) = (c.used_error ≡ none) × Accepted cs

  -- The entry that a received datagram gives its chain.
  abbrev pub entry : Chain G.Mem → ℕ × ℕ
  entry c = (c.head_index, 0)

  -- A turn with nothing to receive, and a turn with a datagram.
  receive-blocked :
      (c : Chain G.Mem) (s : Traffic G) → s.world.incoming ≡ [] → receive G c s ≡ (s, ok stop)
  unfolding receive
  receive-blocked c s e = ground (arith, e)

  took : Chain G.Mem → List Received → Traffic G → Traffic G
  took c more s = record {
    mem = c.publish s.mem;
    used = s.used ++ (entry c ∷ []);
    world = record (s.world) { incoming = more };
  }

  receive-took :
      (c : Chain G.Mem) (d : List ℕ) (more : List Received) (s : Traffic G)
      → c.used_error ≡ none
      → s.world.incoming ≡ datagram d ∷ more
      → receive G c s ≡ (took c more s, ok next)
  unfolding receive add_used took
  receive-took c d more s a e = ground (arith, a, e)

  -- What a run of the loop leaves of the queue, what it adds to the used ring, and how it ends.
  ReceivedAll :
      List (Chain G.Mem)
      → List (List ℕ)
      → Traffic G
      → Traffic G × List (Yield G.Mem) × Outcome (Unit {0})
      → Type 0
  ReceivedAll cs ds s r =
      (r.1 ≡ all_available (drop (suc (length ds)) cs))
      × (r.0.used ≡ s.used ++ map entry (take (length ds) cs))
      × (r.0.world.incoming ≡ [])
      × (r.2 ≡ ok tt)

  drain-receive :
      (cs : List (Chain G.Mem)) (ds : List (List ℕ)) (s : Traffic G)
      → Accepted cs
      → s.world.incoming ≡ map datagram ds
      → length ds < length cs
      → ReceivedAll cs ds s (drain (receive G) (all_available cs) s)
  unfolding drain_with ReceivedAll took
  drain-receive [] ds s a e lt = ground arith
  drain-receive (c ∷ cs) [] s a e lt =
      rw (receive-blocked c s e) (refl, sym (append-nil s.used), e, refl)
  drain-receive (c ∷ cs) (d ∷ ds) s (a, more) e lt =
      let (ys, used, incoming, end) =
        drain-receive cs ds (took c (map datagram ds) s) more refl (omega (arith, lt)) in
      rw (receive-took c d (map datagram ds) s a e)
        (ys, used ∙ append_assoc s.used (entry c ∷ []) _, incoming, end)

  -- With fewer datagrams than buffers, all of which the used ring takes, the call gives the guest one
  -- buffer back for each datagram, as an entry of length 0, takes one more buffer off the queue
  -- without giving it back, and leaves the others.
  pub process_rx_queue-lost :
      (self : VirtioNet G) (queue : Queue G.Mem) (qs : List (Queue G.Mem)) (cs : List (Chain G.Mem))
      (ds : List (List ℕ))
      → self.config.queues ≡ queue ∷ qs
      → queue.yields ≡ all_available cs
      → Accepted cs
      → self.socket.incoming ≡ map datagram ds
      → length ds < length cs
      → let after : Queue G.Mem = record queue {
        yields = all_available (drop (suc (length ds)) cs);
        used = queue.used ++ map entry (take (length ds) cs);
      } in
        ((process_rx_queue G self).0.config.queues ≡ after ∷ qs)
        × ((process_rx_queue G self).1 ≡ ok tt)
  unfolding process_rx_queue on_rx ReceivedAll
  process_rx_queue-lost self queue qs cs ds e ys a incoming lt =
      let (left, used, _, end) = drain-receive cs ds (start G self queue) a incoming lt in
      rw e (rw ys (ground (arith, left, used, end)))

-- ===== src/Virtio/Net.antt =====
-- rust-hypervisor/src/virtio/net.rs: the network device. `Socket` is its UDP socket: what waits to be
-- received, and what was sent. Its mutex is never poisoned.
pub mod Receive
pub mod Send
use Prim.Native.String.{◌++◌ as append}
use mo_vm.Common.{
  ℕ, ◌+◌, ◌%◌, ◌^◌, String, Option, none, some, List, [], ◌∷◌, ◌++◌, length, zeroed, to_le_bytes,
  splice, ◌==◌, if◌then◌else◌, map, bit_or, Bool, ◌⊎◌, inl, inr,
}
use mo_vm.Error.{
  memory_error, io_error, other, invalid_input, would_block, HypervisorError, IoError, Outcome, ok,
  err, panic,
}
use mo_vm.Error.Action.{Action}
use mo_vm.GuestMemory.{GuestMemory}
use mo_vm.Virtio.{VirtioDevice, read_config_space}
use mo_vm.Virtio.Queue.{
  Descriptor, Chain, Yield, Queue, EventFd, VirtioDeviceConfig, new_config, Loop, add_used, Flow,
  next, stop, drain,
}

-- The answers of `recv_from`, in order, whether `send_to` works, and the datagrams sent so far. When
-- the answers are used up, a call would block.
pub data Received : Type 0 where
  datagram : List ℕ → Received
  broken : IoError → Received

pub record Socket : Type 0 where
  pub incoming : List Received
  pub send_works : Bool
  pub outgoing : List (List ℕ × String)

-- The bytes of `NetConfig`.
unfoldable pub config_bytes : List ℕ → List ℕ
config_bytes local_mac = local_mac ++ (to_le_bytes 2 1 ++ (to_le_bytes 2 1 ++ to_le_bytes 2 1500))

-- `wrapping_shl` takes the shift modulo 64, and `VIRTIO_F_VERSION_1` is a mask, not a bit number.
unfoldable pub net_features : ℕ
net_features =
    bit_or (bit_or (2 ^ (2 ^ 32 % 2 ^ 32 % 64) % 2 ^ 64) (2 ^ (5 % 64) % 2 ^ 64))
      (2 ^ (16 % 64) % 2 ^ 64)

abbrev io : String → HypervisorError
io text = io_error (record { kind = other; message = text })

-- `peer_addr.map(parse).transpose()`
bad_peer : (String → Option String) → Option String → Option String
bad_peer parse none = none
bad_peer parse (some addr) = parse addr

module _ (G : GuestMemory) where
  pub record VirtioNet : Type 0 where
    pub config : VirtioDeviceConfig G.Mem
    pub socket : Socket
    pub local_mac : List ℕ
    pub peer_addr : Option String

  -- `bind` and `set_nonblocking` give the socket or a text, `parse` what is wrong with an address, and
  -- `getrandom` six bytes or a text.
  unfoldable pub new :
      Socket ⊎ String
      → Option String
      → (String → Option String)
      → List ℕ ⊎ String
      → G.Mem
      → ℕ
      → ℕ
      → Option EventFd
      → Option String
      → Outcome VirtioNet
  unfolding bad_peer
  new bind nonblocking parse getrandom mem guest_mem irq evt peer_addr = elim bind [
    | inr e ↦ err (io (append "Failed to bind socket: " e))
    | inl socket ↦ elim nonblocking [
      | some e ↦ err (io (append "Failed to set non-blocking: " e))
      | none ↦ elim (bad_peer parse peer_addr) [
        | some e ↦ err (
            io_error (record { kind = invalid_input; message = append "Invalid peer address: " e }))
        | none ↦ elim getrandom [
          | inr e ↦ err (io (append "Failed to generate MAC address: " e))
          | inl mac ↦ ok (record {
            config = new_config mem guest_mem irq 2 evt;
            socket = socket;
            local_mac = splice mac 0 (0x02 ∷ []);
            peer_addr = peer_addr;
          })
        ]
      ]
    ]
  ]

  abbrev pub Traffic : Type 0
  Traffic = Loop G.Mem Socket

  -- One turn of the receive loop. The datagram's bytes stay in a local buffer.
  unfoldable pub receive : Chain G.Mem → Action Traffic Flow
  receive c s = elim s.world.incoming [
    | [] ↦ (s, ok stop)
    | broken e ∷ more ↦ (
      record s { world = record (s.world) { incoming = more } },
      elim e.kind [ would_block ↦ ok stop | _ ↦ err (io_error e) ],
    )
    | datagram bytes ∷ more ↦
        (let t : Traffic = record s { world = record (s.world) { incoming = more } } in
          ((add_used c 0 t).0, ok next))
  ]

  unfoldable pub collect : G.Mem → List Descriptor → List ℕ
  collect mem [] = []
  collect mem (desc ∷ descs) = (G.read_slice mem (zeroed desc.len) desc.addr).0 ++ collect mem descs

  unfoldable pub send_to : Option String → List ℕ → Socket → Socket
  send_to none buf socket = socket
  send_to (some peer) buf socket =
      if socket.send_works
      then record socket { outgoing = socket.outgoing ++ ((buf, peer) ∷ []) }
      else socket

  unfoldable pub transmit : Option String → Chain G.Mem → Action Traffic Flow
  transmit peer_addr c s =
      let buf = collect s.mem c.descriptors in
      let t : Traffic = record s { world = send_to peer_addr buf s.world } in
      ((add_used c (length buf % 2 ^ 32) t).0, ok next)

  abbrev pub start : VirtioNet → Queue G.Mem → Traffic
  start self queue = record { mem = self.config.mem; used = queue.used; world = self.socket }

  abbrev pub drained : VirtioNet → List (Queue G.Mem) → Traffic → VirtioNet
  drained self queues s = record self {
    config = record (self.config) { mem = s.mem; queues = queues };
    socket = s.world;
  }

  on_rx : VirtioNet → List (Queue G.Mem) → VirtioNet × Outcome (Unit {0})
  on_rx self [] = (self, err (memory_error "RX queue not found"))
  on_rx self (queue ∷ qs) =
      let (s, ys, r) = drain receive queue.yields (start self queue) in
      (drained self (record queue { yields = ys; used = s.used } ∷ qs) s, r)

  on_tx : VirtioNet → List (Queue G.Mem) → VirtioNet × Outcome (Unit {0})
  on_tx self (rx ∷ queue ∷ qs) =
      let (s, ys, r) = drain (transmit self.peer_addr) queue.yields (start self queue) in
      (drained self (rx ∷ record queue { yields = ys; used = s.used } ∷ qs) s, r)
  on_tx self qs = (self, err (memory_error "TX queue not found"))

  unfoldable pub process_rx_queue : Action VirtioNet (Unit {0})
  unfolding on_rx
  process_rx_queue self = on_rx self self.config.queues

  unfoldable pub process_tx_queue : Action VirtioNet (Unit {0})
  unfolding on_tx
  process_tx_queue self = on_tx self self.config.queues

  -- `decimal` prints a number.
  unfoldable pub process_queue : (ℕ → String) → ℕ → Action VirtioNet (Unit {0})
  process_queue decimal queue_idx self =
      if queue_idx == 0
      then process_rx_queue self
      else if queue_idx == 1
      then process_tx_queue self
      else (self, err (memory_error (append "Invalid queue index: " (decimal queue_idx))))

  abbrev pub virtio_net : (ℕ → String) → VirtioDevice VirtioNet
  virtio_net decimal = record {
    device_type = λ self. 1;
    get_features = λ self. net_features;
    set_acked_features = λ features self. (self, ok tt);
    read_config = λ self offset buf. read_config_space (config_bytes self.local_mac) offset buf;
    write_config = λ offset bytes self. (self, ok tt);
    process_queue = process_queue decimal;
    get_queues = λ self. map (λ q. q.max_size) self.config.queues;
    get_interrupt_status = λ self. 0;
  }

-- ===== src/Virtio/Tests.antt =====
-- Small devices over a flat memory of 4 KB whose cells are all 7, and the theorems at them.
use mo_vm.Common.{
  if◌then◌else◌, ◌==◌, zeroed, ℕ, ◌≡◌, refl, true, false, String, Option, none, some, List, [], ◌∷◌,
  arith, length-zeroed,
}
use mo_vm.Error.{ok}
use mo_vm.GuestMemory.Flat.{Flat, flat, read_slice, fits, read_from}
use mo_vm.Virtio.Queue.{Descriptor, Chain, Queue, Loop, VirtioDeviceConfig}
use mo_vm.Virtio.Queue.Drain.{all_available}
use mo_vm.Virtio.Block.Disk.{File, SameContent}
use mo_vm.Virtio.Block.Sectors.{Asks, inline_read-inline_write}
use mo_vm.Virtio.Block.{
  VirtioBlock, on_type, process_request, inline_request, process_queue, inline_read, inline_write,
}
use mo_vm.Virtio.Block.ReadOnly.{process_queue-read_only}
use mo_vm.Virtio.Block.Requests.{process_request-inline_request}
use mo_vm.Virtio.Console.{VirtioConsole, process_tx_queue}
use mo_vm.Virtio.Console.Transmit.{sent, process_tx_queue-sent, process_tx_queue-interrupt}
use mo_vm.Virtio.Net.{VirtioNet, datagram, process_rx_queue, process_tx_queue as net_tx}
use mo_vm.Virtio.Net.Receive.{process_rx_queue-lost}
use mo_vm.Virtio.Net.Send.{packets, process_tx_queue-outgoing}

abbrev mem : Flat
mem = record { size = 0x1000; cell = λ a. 7 }

abbrev buffer : ℕ → Descriptor
buffer addr = record { addr = addr; len = 2; is_write_only = false }

abbrev chain : ℕ → Chain Flat
chain head_index = record {
  head_index = head_index;
  descriptors = buffer 0x100 ∷ record (buffer 0x200) { is_write_only = true } ∷ [];
  used_error = none;
  publish = λ m. m;
}

abbrev chains : List (Chain Flat)
chains = chain 0 ∷ chain 1 ∷ []

abbrev queue : Queue Flat
queue = record { max_size = 1024; yields = all_available chains; used = [] }

abbrev idle : Queue Flat
idle = record { max_size = 1024; yields = []; used = [] }

abbrev config : List (Queue Flat) → VirtioDeviceConfig Flat
config queues = record {
  mem = mem;
  guest_mem = 0x1000;
  irq = 5;
  queues = queues;
  interrupt_evt = some (record { count = 0; failure = none });
}

abbrev console : VirtioConsole flat
console = record {
  config = config (idle ∷ queue ∷ []);
  output = record { written = 1 ∷ []; broken_pipe = false };
}

process_tx_queue-sent_example :
    (process_tx_queue flat console).0.output.written ≡ 1 ∷ sent flat mem chains
process_tx_queue-sent_example =
    process_tx_queue-sent flat console chains (idle, 1024, [], [], refl) refl

process_tx_queue-interrupt_example :
    ((process_tx_queue flat console).1 ≡ ok tt)
    × ((process_tx_queue flat console).0.config.interrupt_evt
        ≡ some (record { count = 1; failure = none }))
process_tx_queue-interrupt_example =
    process_tx_queue-interrupt flat console chains 0 (idle, 1024, [], [], refl) refl

abbrev disk : File
disk = record { size = 1024; at = λ a. 9; cursor = 0; writable = false }

abbrev block : VirtioBlock flat
block = record {
  config = config (queue ∷ []);
  disk = disk;
  disk_size = 1024;
  block_size = 512;
  read_only = true;
}

process_queue-read_only_example : SameContent disk (process_queue flat 0 block).0.disk
process_queue-read_only_example = process_queue-read_only flat block 0 refl

abbrev fresh : Loop Flat File
fresh = record { mem = mem; used = []; world = disk }

process_request-inline_request_example :
    inline_request flat 512 true (buffer 0x100 ∷ []) fresh
    ≡ process_request flat 512 true (buffer 0x100 ∷ []) fresh
unfolding process_request on_type read_slice fits read_from
process_request-inline_request_example =
    process_request-inline_request flat 512 true (buffer 0x100 ∷ []) fresh 2
      (ground (arith, length-zeroed 4))

abbrev net : Option String → VirtioNet flat
net peer_addr = record {
  config = config (queue ∷ queue ∷ []);
  socket = record { incoming = datagram (1 ∷ 2 ∷ []) ∷ []; send_works = true; outgoing = [] };
  local_mac = 2 ∷ 0 ∷ 0 ∷ 0 ∷ 0 ∷ 1 ∷ [];
  peer_addr = peer_addr;
}

process_rx_queue-lost_example :
    ((process_rx_queue flat (net none)).0.config.queues
      ≡ record { max_size = 1024; yields = []; used = (0, 0) ∷ [] } ∷ queue ∷ [])
    × ((process_rx_queue flat (net none)).1 ≡ ok tt)
process_rx_queue-lost_example =
    process_rx_queue-lost flat (net none) queue (queue ∷ []) chains ((1 ∷ 2 ∷ []) ∷ []) refl refl
      (refl, (refl, tt)) refl (omega arith)

process_tx_queue-outgoing_example :
    ((net_tx flat (net (some "10.0.0.2:9"))).0.socket.outgoing
      ≡ packets flat "10.0.0.2:9" mem chains)
    × ((used : List (ℕ × ℕ)) × ((net_tx flat (net (some "10.0.0.2:9"))).0.config.queues
          ≡ queue ∷ record { max_size = 1024; yields = []; used = used } ∷ []))
    × ((net_tx flat (net (some "10.0.0.2:9"))).1 ≡ ok tt)
process_tx_queue-outgoing_example =
    process_tx_queue-outgoing flat (net (some "10.0.0.2:9")) "10.0.0.2:9" queue queue [] chains refl
      refl refl refl

-- A memory with a request to read the first block at 0x100 and one to write the second at 0x200.
abbrev asking : Loop Flat File
asking = record {
  mem = record { size = 0x1000; cell = λ a. if a == 0x200 then 1 else 0 };
  used = [];
  world = record disk { writable = true };
}

abbrev request : ℕ → Descriptor
request addr = record { addr = addr; len = 18; is_write_only = false }

Asks-read : Asks flat 0 (request 0x100) asking
unfolding read_slice fits read_from zeroed
Asks-read = record {
  type_read = refl;
  sector_read = refl;
  is_type = refl;
  seeks = omega arith;
  small = omega arith;
}

Asks-write : Asks flat 1 (request 0x200) asking
unfolding read_slice fits read_from zeroed
Asks-write = record {
  type_read = refl;
  sector_read = refl;
  is_type = refl;
  seeks = omega arith;
  small = omega arith;
}

inline_read-inline_write_example :
    (inline_read flat 512
      (request 0x100)
      (record asking { world = (inline_write flat 512 (request 0x200) asking).world })).mem
    ≡ (inline_read flat 512 (request 0x100) asking).mem
inline_read-inline_write_example =
    inline_read-inline_write flat (request 0x100) (request 0x200) asking Asks-read Asks-write
      (omega arith)

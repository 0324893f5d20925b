-- ===== src/Virtio/Fs/Serve.antt =====
-- What one message of the guest does to the backend.
use mo_vm.Common.{
  ◌%◌, ◌^◌, ◌≡◌, none, List, [], ◌∷◌, ◌++◌, ◌==◌, if◌then◌else◌, zeroed, length-zeroed, arith,
}
use mo_vm.Error.{ok, panic}
use mo_vm.GuestMemory.{GuestMemory}
use mo_vm.Virtio.Queue.{Descriptor, Chain, add_used, next}
use mo_vm.Virtio.Fs.{process_9p}
use mo_vm.Virtio.Fs.Device.{Event, serve, answered}

-- A message that can be read, of a chain whose entry the used ring takes, is answered by a used entry
-- of its own length, unless it has four bytes: then the backend panics and the chain gets no entry.
pub serve_lem :
    (G : GuestMemory) (c : Chain G.Mem) (desc : Descriptor) (rest : List Descriptor) (s : Event G)
    → c.descriptors ≡ desc ∷ rest
    → c.used_error ≡ none
    → (G.read_slice s.mem (zeroed desc.len) desc.addr).1 ≡ none
    → ((serve G c s).1 ≡ (if desc.len == 4 then panic else ok next))
      × ((serve G c s).0.used
          ≡ (if desc.len == 4 then s.used else s.used ++ ((c.head_index, desc.len % 2 ^ 32) ∷ [])))
unfolding serve answered process_9p add_used
serve_lem G c desc rest s e u r =
    ground (arith, e, u, r, G.read_length s.mem (zeroed desc.len) desc.addr, length-zeroed desc.len)

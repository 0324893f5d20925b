-- ===== src/Virtio/Fs/Tests.antt =====
-- A shared directory with a region of eight bytes, and access control lists.
use mo_vm.Common.{
  none, false, zeroed, length-zeroed, ℕ, ◌≡◌, ◌↔◌, refl, true, some, List, [], ◌∷◌, length,
  replicate, get_elem?, arith,
}
use mo_vm.GuestMemory.Flat.{Flat, flat, zeros, zeros-IsBacked}
use mo_vm.GuestMemory.Image.{IsBacked-within}
use mo_vm.Virtio.Queue.{Descriptor, Chain}
use mo_vm.Virtio.Fs.Device.{Event, serve}
use mo_vm.Virtio.Fs.Serve.{serve_lem}
use mo_vm.Error.{ok, panic}
use mo_vm.Virtio.Fs.{FsState, mmio_read, mmio_write}
use mo_vm.Virtio.Fs.Access.{Acl, AclEntry, check_permission, filter, any, contains}
use mo_vm.Virtio.Fs.Region.{mmio_read-mmio_write, mmio_write_outside}
use mo_vm.Virtio.Fs.Grants.{Exists, Matches, check_permission-Exists, check_permission_mono}

abbrev reader : AclEntry
reader = record { uid = 1000; gid = 100; permissions = 0b0011 }

abbrev guarded : Acl
guarded = record { owner = 0; group = 0; entries = reader ∷ [] }

abbrev shared : FsState
shared = record { root = "/srv"; acls = []; mmio_region = some (0, 8); mmio_data = replicate 8 0 }

mmio_read-mmio_write_example :
    let (self', r) = mmio_write 3 (1 ∷ 2 ∷ []) shared in
    (r ≡ ok tt)
    × (mmio_read self' 3 (0 ∷ 0 ∷ []) ≡ (1 ∷ 2 ∷ [], ok tt))
    × (length self'.mmio_data ≡ 8)
    × (get_elem? self'.mmio_data 4 ≡ some 2)
mmio_read-mmio_write_example =
    mmio_read-mmio_write shared 3 (1 ∷ 2 ∷ []) (0 ∷ 0 ∷ []) 4 (omega arith) (omega arith) refl

mmio_write_outside_example : mmio_write 0xffffffffffffffff (1 ∷ 2 ∷ []) shared ≡ (shared, panic)
mmio_write_outside_example =
    mmio_write_outside shared 0xffffffffffffffff (1 ∷ 2 ∷ []) (omega arith) (omega arith)
      (omega arith)

abbrev message : List ℕ
message = replicate 4 0

check_permission-Exists_example :
    (check_permission guarded 1000 7 0b0010 ≡ true)
    ↔ Exists (λ e. Matches guarded 1000 7 e × (contains e.permissions 0b0010 ≡ true)) (reader ∷ [])
check_permission-Exists_example = check_permission-Exists guarded 1000 7 0b0010 (λ e. omega arith)

check_permission_mono_example : check_permission guarded 1000 7 0b0001 ≡ true
unfolding check_permission filter any
check_permission_mono_example =
    check_permission_mono guarded 1000 7 0b0011 0b0001 (λ e. omega arith) (omega arith, tt)
      (omega arith) (omega arith) refl refl

abbrev four : Descriptor
four = record { addr = 0x100; len = 4; is_write_only = false }

abbrev message_chain : Chain Flat
message_chain = record {
  head_index = 0;
  descriptors = four ∷ [];
  used_error = none;
  publish = λ m. m;
}

abbrev event : Event flat
event = record { mem = zeros 0x1000; used = []; world = tt }

readable : (flat.read_slice event.mem (zeroed 4) 0x100).1 ≡ none
readable = flat.read_total event.mem (zeroed 4) 0x100 (
    IsBacked-within (flat.byte event.mem) 0 0x1000 0x100 (length (zeroed 4))
      (zeros-IsBacked 0x1000 (omega arith)) (omega arith) (omega (arith, length-zeroed 4)))

serve_lem_example :
    ((serve flat message_chain event).1 ≡ panic) × ((serve flat message_chain event).0.used ≡ [])
serve_lem_example = serve_lem flat message_chain four [] event refl refl readable

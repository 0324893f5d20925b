-- ===== src/Virtio/Fs/Files.antt =====
-- rust-hypervisor/src/virtio/fs.rs: the file helpers of `FsState`, which nothing calls, the module's own error type, and
-- the methods of the vhost-user backend other than `handle_event`. Opening a file is the host's.
use Prim.Native.String.{◌++◌ as append}
use text.Mathlib.TextEquality.{eq_iff}
use mo_vm.Common.{
  ℕ, ◌≡◌, refl, ap, ◌∙◌, ◌≢◌, ◌⊎◌, inl, inr, [], String, Bool, Option, none, some, arith,
}
use mo_vm.Error.{IoError, other, io_error, to_string, Outcome, ok, err, panic}
use mo_vm.Error.Action.{Action}
use mo_vm.GuestMemory.{GuestMemory}
use mo_vm.Virtio.Fs.{FsState, Owner, init_acl, get_acl}
use mo_vm.Virtio.Fs.Device.{VirtioFs}
use mo_vm.Virtio.Fs.Tables.{get_acl-init_acl}

-- `join` is `Path::join` and `decimal` prints a number.
unfoldable pub get_path : (String → String → String) → (ℕ → String) → FsState → ℕ → Outcome String
get_path join decimal self fid = ok (join self.root (decimal fid))

acl_failed : (ℕ → String) → FsState × Outcome (Unit {0}) → FsState × Outcome (Unit {0})
acl_failed strerror (self, ok _) = (self, ok tt)
acl_failed strerror (self, err e) = (
  self,
  err (
      io_error (record {
        kind = other;
        message = append "Failed to initialize ACL: " (to_string strerror e);
      })),
)
acl_failed strerror (self, panic) = (self, panic)

-- `opened` is the error of creating or opening the file; an `io::Error` is an `io_error`.
unfoldable pub create_file :
    (ℕ → String) → Option IoError → Outcome Owner → String → Action FsState (Unit {0})
unfolding acl_failed
create_file strerror (some e) metadata path self = (self, err (io_error e))
create_file strerror none metadata path self = acl_failed strerror (init_acl metadata path self)

-- `opens` is the host's answer to a mode, reading and writing, and a path.
unfoldable pub open_file :
    (Bool → Bool → String → Option IoError) → String → Bool → Bool → Outcome (Unit {0})
open_file opens path read write = elim (opens read write path) [
  | none ↦ ok tt
  | some e ↦ err (io_error e)
]

-- `Error` of virtio/fs.rs.
pub data FsError : Type 0 where
  io : IoError → FsError
  invalid_message unsupported_operation permission_denied invalid_offset_error : FsError
  event_fd : IoError → FsError

abbrev pub fs_error_text : FsError → String
fs_error_text (io e) = append "I/O error: " e.message
fs_error_text invalid_message = "Invalid message format"
fs_error_text unsupported_operation = "Unsupported operation"
fs_error_text permission_denied = "Permission denied"
fs_error_text invalid_offset_error = "Invalid offset"
fs_error_text (event_fd e) = append "EventFd error: " e.message

-- `From<Error> for std::io::Error`: an I/O error is passed on whole.
unfoldable pub from_fs_error : FsError → IoError
from_fs_error (io e) = e
from_fs_error e = record { kind = other; message = fs_error_text e }

module _ (G : GuestMemory) where
  -- `VhostUserBackendMut`
  unfoldable pub update_memory : G.Mem → Action (VirtioFs G) (Unit {0})
  update_memory mem self = (record self { mem = mem }, ok tt)

  unfoldable pub set_event_idx : Bool → VirtioFs G → VirtioFs G
  set_event_idx enable self = self

  unfoldable pub backend_features : VirtioFs G → ℕ
  backend_features self = self.features

abbrev pub num_queues : ℕ
num_queues = 1

abbrev pub max_queue_size : ℕ
max_queue_size = 256

acl_failed-ok :
    (strerror : ℕ → String) (x : FsState × Outcome (Unit {0}))
    → x.1 ≡ ok tt
    → acl_failed strerror x ≡ x
unfolding acl_failed
acl_failed-ok strerror (self, ok _) e = refl
acl_failed-ok strerror (self, err e') e = absurd (ground arith)
acl_failed-ok strerror (self, panic) e = absurd (ground arith)

-- Creating a file either fails and changes no list, or leaves the path with the list that it had or, without
-- one, with the file's owner and group and no entries.
pub create_file_lem :
    (strerror : ℕ → String) (opened : Option IoError) (metadata : Outcome Owner) (path : String)
    (self : FsState)
    → let (self', r) = create_file strerror opened metadata path self in
      ((r ≢ ok tt) × (self' ≡ self))
      ⊎ ((r ≡ ok tt)
          × (owner : Owner) × (metadata ≡ ok owner)
          × (get_acl self' path
              ≡ some (elim (get_acl self path) [
                | some acl ↦ acl
                | none ↦ record { owner = owner.uid; group = owner.gid; entries = [] }
              ])))
unfolding create_file acl_failed init_acl
create_file_lem strerror (some e) metadata path self = inl (cc, refl)
create_file_lem strerror none (err e) path self = inl (cc, refl)
create_file_lem strerror none panic path self = inl (cc, refl)
create_file_lem strerror none (ok owner) path self =
    let (done, acl) = get_acl-init_acl self owner path path in
    let passed = acl_failed-ok strerror (init_acl (ok owner) path self) done in
    inr (
      ap (λ x. x.1) passed ∙ done,
      owner,
      refl,
      ap (λ x. get_acl x.0 path) passed ∙ acl ∙ rw ((eq_iff path path).1 refl) refl,
    )

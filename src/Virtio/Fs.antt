-- ===== src/Virtio/Fs.antt =====
-- rust-hypervisor/src/virtio/fs.rs: access control lists, the state of the shared directory, and the
-- 9P front end. What the host's file system answers is an argument. A `u64` and a `usize` have 64
-- bits and wrap. The locks are never poisoned.
pub mod Access
pub mod Region
pub mod Grants
pub mod Tables
pub mod Device
pub mod Serve
pub mod Files
pub mod Codec
mod Tests
use Prim.Native.String.{◌++◌ as append}
use text.Mathlib.Text.{◌==◌ as str_eq}
use mo_vm.Common.{
  ℕ, ◌+◌, ◌-◌, ◌%◌, ◌^◌, String, Bool, true, false, Option, none, some, List, [], ◌∷◌, length, take,
  drop, splice, zeroed, lookup, insert, ltb, if◌then◌else◌,
}
use mo_vm.Error.{
  IoError, invalid_input, unsupported, other, io_error, HypervisorError, Outcome, ok, err, panic,
  to_string,
}
use mo_vm.Error.Action.{Action, return, fail, after, ◌>>◌}
use mo_vm.Virtio.Fs.Access.{Acl}

-- What `metadata` tells of a file: its owner and its group.
pub record Owner : Type 0 where
  pub uid : ℕ
  pub gid : ℕ

pub record FsState : Type 0 where
  pub root : String
  pub acls : List (String × Acl)
  pub mmio_region : Option (ℕ × ℕ)
  pub mmio_data : List ℕ

-- `metadata` is what `fs::metadata(path)?` gives.
unfoldable pub init_acl : Outcome Owner → String → Action FsState (Unit {0})
init_acl (err e) path self = (self, err e)
init_acl panic path self = (self, panic)
init_acl (ok metadata) path self = elim (lookup self.acls path) [
  | some _ ↦ (self, ok tt)
  | none ↦
      let acl : Acl = record { owner = metadata.uid; group = metadata.gid; entries = [] } in
      (record self { acls = insert path acl self.acls }, ok tt)
]

region_data : Option (ℕ × ℕ) → List ℕ
region_data none = []
region_data (some (base, size)) = zeroed size

-- `created` is what `create_dir_all` gives where the root does not exist.
unfoldable pub new :
    String → Option (ℕ × ℕ) → Bool → Outcome (Unit {0}) → Outcome Owner → Outcome FsState
unfolding region_data
new root mmio_region root_exists created metadata =
    let fresh : FsState = record {
      root = root;
      acls = [];
      mmio_region = mmio_region;
      mmio_data = region_data mmio_region;
    } in
    finish (if root_exists then ok tt else created) (init_acl metadata root fresh)
  where
    initialised : FsState × Outcome (Unit {0}) → Outcome FsState
    initialised (state, ok _) = ok state
    initialised (state, err e) = err e
    initialised (state, panic) = panic

    finish : Outcome (Unit {0}) → FsState × Outcome (Unit {0}) → Outcome FsState
    finish (ok _) r = initialised r
    finish (err e) r = err e
    finish panic r = panic

unfoldable pub set_acl : String → Acl → Action FsState (Unit {0})
set_acl path acl self = (record self { acls = insert path acl self.acls }, ok tt)

unfoldable pub get_acl : FsState → String → Option Acl
get_acl self path = lookup self.acls path

abbrev pub invalid_offset : HypervisorError
invalid_offset = io_error (record { kind = invalid_input; message = "Invalid offset" })

-- The end of a range; the sum wraps. A range whose start lies behind its end panics.
abbrev pub range_end : ℕ → ℕ → ℕ
range_end offset len = (offset + len) % 2 ^ 64

unfoldable pub mmio_read : FsState → ℕ → List ℕ → List ℕ × Outcome (Unit {0})
mmio_read self offset buf =
    let end = range_end offset (length buf) in
    if ltb (length self.mmio_data) end
    then (buf, err invalid_offset)
    else if ltb end offset
    then (buf, panic)
    else (take (length buf) (drop offset self.mmio_data), ok tt)

unfoldable pub mmio_write : ℕ → List ℕ → Action FsState (Unit {0})
mmio_write offset bytes self =
    let end = range_end offset (length bytes) in
    if ltb (length self.mmio_data) end
    then (self, err invalid_offset)
    else if ltb end offset
    then (self, panic)
    else (record self { mmio_data = splice self.mmio_data offset bytes }, ok tt)

-- `process_9p`: the length is tested against 4, and then the byte at index 4 is read.
unfoldable pub process_9p : List ℕ → Outcome (Unit {0})
process_9p desc_chain =
    if ltb (length desc_chain) 4
    then err (io_error (record { kind = invalid_input; message = "Invalid message" }))
    else if ltb 4 (length desc_chain)
    then err (io_error (record { kind = unsupported; message = "Operation not supported" }))
    else panic

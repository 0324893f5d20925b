-- ===== src/Virtio/Fs/Tables.antt =====
-- The access control lists that the state keeps.
use mo_vm.Common.{String, ◌≡◌, some, none, if◌then◌else◌, lookup-insert, arith, []}
use text.Mathlib.Text.{◌==◌}
use text.Mathlib.TextEquality.{eq_iff}
use mo_vm.Error.{ok}
use mo_vm.Virtio.Fs.{FsState, Owner, init_acl, get_acl}

-- Initialisation gives a path without a list the file's owner and group and no entries; it never
-- replaces a list, and changes nothing under any other path.
pub get_acl-init_acl :
    (self : FsState) (metadata : Owner) (path other : String)
    → let (self', r) = init_acl (ok metadata) path self in
      (r ≡ ok tt)
      × (get_acl self' other ≡ (
          if path == other
          then some (elim (get_acl self path) [
            | some acl ↦ acl
            | none ↦ record { owner = metadata.uid; group = metadata.gid; entries = [] }
          ])
          else get_acl self other))
unfolding init_acl get_acl
get_acl-init_acl self metadata path other = ground (
  arith,
  eq_iff path other,
  lookup-insert path other (record { owner = metadata.uid; group = metadata.gid; entries = [] })
      self.acls,
)

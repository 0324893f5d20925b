-- ===== src/Virtio/Fs/Access.antt =====
-- `AclPermissions`, `AclEntry`, `Acl` and `check_permission`. A permission set is its `u32`.
use mo_vm.Common.{
  ℕ, Bool, false, ◌||◌, Option, none, some, List, [], ◌∷◌, bit_and, ◌==◌, if◌then◌else◌,
}

abbrev pub permission_read : ℕ
permission_read = 0b0001

abbrev pub permission_write : ℕ
permission_write = 0b0010

abbrev pub permission_execute : ℕ
permission_execute = 0b0100

abbrev pub permission_delete : ℕ
permission_delete = 0b1000

-- `AclPermissions::all()`
abbrev pub permission_all : ℕ
permission_all = 0b1111

-- `bitflags`' `contains`
abbrev pub contains : ℕ → ℕ → Bool
contains permissions required = bit_and permissions required == required

-- `deserialize`: a number with other bits is refused.
unfoldable pub from_bits : ℕ → Option ℕ
from_bits bits = if contains permission_all bits then some bits else none

pub record AclEntry : Type 0 where
  pub uid : ℕ
  pub gid : ℕ
  pub permissions : ℕ

pub record Acl : Type 0 where
  pub owner : ℕ
  pub group : ℕ
  pub entries : List AclEntry

unfoldable pub default_acl : Acl
default_acl = record { owner = 0; group = 0; entries = [] }

unfoldable pub find : (AclEntry → Bool) → List AclEntry → Option AclEntry
find p [] = none
find p (e ∷ es) = if p e then some e else find p es

unfoldable pub filter : (AclEntry → Bool) → List AclEntry → List AclEntry
filter p [] = []
filter p (e ∷ es) = if p e then e ∷ filter p es else filter p es

unfoldable pub any : (AclEntry → Bool) → List AclEntry → Bool
any p [] = false
any p (e ∷ es) = p e || any p es

unfoldable pub check_permission : Acl → ℕ → ℕ → ℕ → Bool
check_permission self uid gid required =
    if self.owner == uid
    then elim (find (λ e. e.uid == uid) self.entries) [
      | some e ↦ contains e.permissions required
      | none ↦ (required == 0) || (required == permission_all)
    ]
    else if self.group == gid
    then any (λ e. contains e.permissions required) (filter (λ e. e.gid == gid) self.entries)
    else any (λ e. contains e.permissions required)
        (filter (λ e. (e.uid == uid) || (e.gid == gid)) self.entries)

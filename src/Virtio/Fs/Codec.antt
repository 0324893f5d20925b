-- ===== src/Virtio/Fs/Codec.antt =====
-- rust-hypervisor/src/virtio/fs.rs: `Serialize`, `Deserialize` and `Debug` of `AclPermissions`. `custom` is the format's
-- error with a text, and `decimal` prints a number.
use Prim.Native.String.{◌++◌ as append}
use mo_vm.Common.{
  ℕ, ◌^◌, ◌<◌, ◌≡◌, refl, ◌⊎◌, inl, inr, String, true, none, some, List, [], ◌∷◌, ◌++◌,
  if◌then◌else◌, Bool-cases,
}
use mo_vm.Error.{HypervisorError, Outcome, ok, err}
use mo_vm.Error.Try.{◌>>=◌}
use mo_vm.Snapshot.Format.{Format, IsFaithful}
use mo_vm.Virtio.Fs.Access.{
  permission_read, permission_write, permission_execute, permission_delete, permission_all,
  contains, from_bits,
}

module _ (F : Format) (custom : String → HypervisorError) where
  unfoldable pub serialize_permissions : ℕ → Outcome F.Value
  serialize_permissions permissions = F.serialize_number 32 permissions

  known : ℕ → Outcome ℕ
  known bits = elim (from_bits bits) [
    | some permissions ↦ ok permissions
    | none ↦ err (custom "invalid AclPermissions value")
  ]

  unfoldable pub deserialize_permissions : F.Value → Outcome ℕ
  unfolding known
  deserialize_permissions v = F.deserialize_number 32 v >>= known

  known-cases :
      (bits : ℕ)
      → ((contains permission_all bits ≡ true) × (known bits ≡ ok bits))
        ⊎ (known bits ≡ err (custom "invalid AclPermissions value"))
  unfolding known from_bits
  known-cases bits = elim (Bool-cases (contains permission_all bits)) [
    | inl all ↦ inl (all, rw (all, known, from_bits) refl)
    | inr more ↦ inr (rw (more, known, from_bits) refl)
  ]

  -- A number of 32 bits that was written is read back if it is a set of permissions, and refused otherwise.
  pub deserialize_permissions-serialize_permissions :
      IsFaithful F
      → (bits : ℕ) (v : F.Value) → bits < 2 ^ 32
      → serialize_permissions bits ≡ ok v
      → ((contains permission_all bits ≡ true) × (deserialize_permissions v ≡ ok bits))
        ⊎ (deserialize_permissions v ≡ err (custom "invalid AclPermissions value"))
  unfolding serialize_permissions deserialize_permissions
  deserialize_permissions-serialize_permissions L bits v small e =
      rw (L.number 32 bits v small e) (known-cases bits)

flag : String → ℕ → ℕ → List String
flag name set permissions = if contains permissions set then name ∷ [] else []

-- `join(" | ")`
joined : List String → String
joined [] = ""
joined (s ∷ []) = s
joined (s ∷ t ∷ ts) = append s (append " | " (joined (t ∷ ts)))

unfoldable pub permissions_text : (ℕ → String) → ℕ → String
unfolding flag joined
permissions_text decimal permissions =
    let flags : List String =
      flag "READ" permission_read permissions
      ++ (flag "WRITE" permission_write permissions
          ++ (flag "EXECUTE" permission_execute permissions
              ++ flag "DELETE" permission_delete permissions)) in
    append "AclPermissions("
      (append (decimal permissions) (append " | " (append (joined flags) ")")))

-- Two permissions, by name.
permissions_text_read_write :
    permissions_text (λ n. "3") 0b0011 ≡ "AclPermissions(3 | READ | WRITE)"
unfolding permissions_text flag joined
permissions_text_read_write = refl

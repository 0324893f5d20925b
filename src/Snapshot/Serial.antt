-- ===== src/Snapshot/Serial.antt =====
-- rust-hypervisor/src/snapshot.rs: what its serializers and visitors share. `Layout` is how kvm_bindings, which
-- is not part of the repository, lays a structure out in memory.
pub mod Kvm
pub mod Regions
pub mod Vcpus
pub mod States
use mo_vm.Common.{ℕ, ◌≡◌, ◌==◌, String, Option, none, some, List, length, if◌then◌else◌}
use mo_vm.Error.{HypervisorError, Outcome, ok, err, panic}
use mo_vm.Error.Try.{◌>>=◌, traverse}
use mo_vm.Snapshot.Format.{Format, MapAccess, finished, entry, broken_key, Driven, by_map, by_seq}

-- The bytes of a structure, and the structure that bytes are. `Fits` says that every field fits its width.
pub record Layout (A : Type 0) : Type 1 where
  pub size_of : ℕ
  pub as_bytes : A → List ℕ
  pub read : List ℕ → A
  pub Fits : A → Type 0
  pub length-as_bytes : (a : A) → Fits a → length (as_bytes a) ≡ size_of
  pub read-as_bytes : (a : A) → Fits a → read (as_bytes a) ≡ a

module _ {A : Type 0} (layout : Layout A) where
  -- `into_regs` and its likes: `assert_eq!` on the length, then `ptr::read`.
  unfoldable pub into_struct : List ℕ → Outcome A
  into_struct bytes = if length bytes == layout.size_of then ok (layout.read bytes) else panic

module _ (F : Format) where
  -- `while let Some(key) = map.next_key()?`, with the visitor's variables in `acc`.
  unfoldable pub visit_map :
      {S : Type 0} → (String → F.Value → S → Outcome S) → MapAccess F.Value → S → Outcome S
  visit_map on_key finished acc = ok acc
  visit_map on_key (entry key v rest) acc = on_key key v acc >>= λ acc. visit_map on_key rest acc
  visit_map on_key (broken_key e) acc = err e

  -- A visitor that has `visit_map` only.
  unfoldable pub map_only :
      {A : Type 0} → String → (MapAccess F.Value → Outcome A) → Driven F.Value → Outcome A
  map_only expecting visit (by_map map) = visit map
  map_only expecting visit (by_seq seq) = err (F.unexpected_seq expecting)

  -- `if x.is_some() { return Err(duplicate_field(name)) } x = Some(map.next_value()?)`
  abbrev pub once : {A : Type 0} → Option A → String → Outcome A → Outcome (Option A)
  once (some _) name value = err (F.duplicate_field name)
  once none name value = value >>= λ a. ok (some a)

  -- `x.ok_or_else(|| missing_field(name))`
  abbrev pub required : {A : Type 0} → Option A → String → Outcome A
  required (some a) name = ok a
  required none name = err (F.missing_field name)

  abbrev pub or_default : {A : Type 0} → Option A → A → A
  or_default (some a) d = a
  or_default none d = d

  -- `SerdeRegs` and its likes: a newtype of bytes.
  unfoldable pub serialize_newtype_bytes : String → List ℕ → Outcome F.Value
  serialize_newtype_bytes name bytes =
      F.serialize_bytes bytes >>= λ v. F.serialize_newtype_struct name v

  unfoldable pub deserialize_newtype_bytes : String → F.Value → Outcome (List ℕ)
  deserialize_newtype_bytes name v =
      F.deserialize_newtype_struct name v >>= λ w. F.deserialize_byte_buf w

  -- A vector of what `f` writes, and its reverse.
  unfoldable pub serialize_vec : {A : Type 0} → (A → Outcome F.Value) → List A → Outcome F.Value
  serialize_vec f xs = traverse f xs >>= λ vs. F.serialize_seq vs

  unfoldable pub deserialize_vec : {A : Type 0} → (F.Value → Outcome A) → F.Value → Outcome (List A)
  deserialize_vec g v = F.deserialize_seq v >>= λ vs. traverse g vs

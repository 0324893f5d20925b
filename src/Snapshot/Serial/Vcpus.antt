-- ===== src/Snapshot/Serial/Vcpus.antt =====
-- rust-hypervisor/src/snapshot.rs: the `Serialize` and `Deserialize` of a vCPU's state.
use text.Mathlib.Text.{◌==◌ as str_eq}
use mo_vm.Common.{ℕ, String, Option, none, List, [], ◌∷◌, if◌then◌else◌}
use mo_vm.Error.{Outcome, ok}
use mo_vm.Error.Try.{◌>>=◌}
use mo_vm.Vcpu.{Regs, Sregs, Fpu, MsrEntry}
use mo_vm.Snapshot.{VcpuState}
use mo_vm.Snapshot.Format.{Format, serialize_fields}
use mo_vm.Snapshot.Serial.{
  Layout, into_struct, visit_map, map_only, once, required, or_default, serialize_vec,
  deserialize_vec, serialize_newtype_bytes, deserialize_newtype_bytes,
}

module _ (F : Format) (regs_layout : Layout Regs) (sregs_layout : Layout Sregs)
    (fpu_layout : Layout Fpu) where
  unfoldable pub from_regs : Regs → Outcome F.Value
  from_regs regs = serialize_newtype_bytes F "SerdeRegs" (regs_layout.as_bytes regs)

  unfoldable pub into_regs : F.Value → Outcome Regs
  into_regs v = deserialize_newtype_bytes F "SerdeRegs" v >>= into_struct regs_layout

  unfoldable pub from_sregs : Sregs → Outcome F.Value
  from_sregs sregs = serialize_newtype_bytes F "SerdeSregs" (sregs_layout.as_bytes sregs)

  unfoldable pub into_sregs : F.Value → Outcome Sregs
  into_sregs v = deserialize_newtype_bytes F "SerdeSregs" v >>= into_struct sregs_layout

  unfoldable pub from_fpu : Fpu → Outcome F.Value
  from_fpu fpu = serialize_newtype_bytes F "SerdeFpu" (fpu_layout.as_bytes fpu)

  unfoldable pub into_fpu : F.Value → Outcome Fpu
  into_fpu v = deserialize_newtype_bytes F "SerdeFpu" v >>= into_struct fpu_layout

  -- A pair of an entry's index and value.
  unfoldable pub serialize_pair : MsrEntry → Outcome F.Value
  serialize_pair e = do
    index ← F.serialize_number 32 e.index
    value ← F.serialize_number 64 e.data'
    F.serialize_tuple index value

  unfoldable pub serialize_pairs : List MsrEntry → Outcome F.Value
  serialize_pairs msrs = serialize_vec F serialize_pair msrs

  abbrev in_pair : F.Value × F.Value → Outcome MsrEntry
  in_pair (index, value) = do
    index ← F.deserialize_number 32 index
    value ← F.deserialize_number 64 value
    ok (record { index = index; reserved = 0; data' = value })

  unfoldable pub deserialize_pair : F.Value → Outcome MsrEntry
  deserialize_pair v = F.deserialize_tuple v >>= in_pair

  unfoldable pub deserialize_pairs : F.Value → Outcome (List MsrEntry)
  deserialize_pairs v = deserialize_vec F deserialize_pair v

  abbrev pub vcpu_fields : VcpuState → List (String × Outcome F.Value)
  vcpu_fields self =
      ("id", F.serialize_number 32 self.id)
      ∷ ("regs", from_regs self.regs)
      ∷ ("sregs", from_sregs self.sregs)
      ∷ ("fpu", from_fpu self.fpu)
      ∷ ("msrs", serialize_pairs self.msrs)
      ∷ []

  unfoldable pub serialize_vcpu : VcpuState → Outcome F.Value
  serialize_vcpu self = serialize_fields F "VcpuState" 5 (vcpu_fields self)

  -- The variables of the visitor.
  pub record VcpuStateSlots : Type 0 where
    pub id : Option ℕ
    pub regs : Option Regs
    pub sregs : Option Sregs
    pub fpu : Option Fpu
    pub msrs : Option (List MsrEntry)

  abbrev pub no_vcpu : VcpuStateSlots
  no_vcpu = record { id = none; regs = none; sregs = none; fpu = none; msrs = none }

  unfoldable pub on_vcpu : String → F.Value → VcpuStateSlots → Outcome VcpuStateSlots
  on_vcpu key v acc =
      if str_eq key "id"
      then (once F acc.id "id" (F.deserialize_number 32 v) >>= λ x. ok (record acc { id = x }))
      else if str_eq key "regs"
      then (once F acc.regs "regs" (into_regs v) >>= λ x. ok (record acc { regs = x }))
      else if str_eq key "sregs"
      then (once F acc.sregs "sregs" (into_sregs v) >>= λ x. ok (record acc { sregs = x }))
      else if str_eq key "fpu"
      then (once F acc.fpu "fpu" (into_fpu v) >>= λ x. ok (record acc { fpu = x }))
      else if str_eq key "msrs"
      then (once F acc.msrs "msrs" (deserialize_pairs v) >>= λ x. ok (record acc { msrs = x }))
      else (F.deserialize_ignored_any v >>= λ _. ok acc)

  unfoldable pub finish_vcpu : VcpuStateSlots → Outcome VcpuState
  finish_vcpu acc = do
    id ← required F acc.id "id"
    regs ← required F acc.regs "regs"
    sregs ← required F acc.sregs "sregs"
    fpu ← required F acc.fpu "fpu"
    ok (record { id = id; regs = regs; sregs = sregs; fpu = fpu; msrs = or_default F acc.msrs [] })

  unfoldable pub deserialize_vcpu : F.Value → Outcome VcpuState
  deserialize_vcpu v = do
    driven ← F.deserialize_struct "VcpuState" ("id" ∷ "regs" ∷ "sregs" ∷ "fpu" ∷ "msrs" ∷ []) v
    map_only F "struct VcpuState" (λ map. visit_map F on_vcpu map no_vcpu >>= finish_vcpu) driven

-- ===== src/Snapshot/Serial/Kvm.antt =====
-- rust-hypervisor/src/snapshot.rs: the serialization of KVM's structures, field by field or as bytes, and
-- its reverse. Nothing calls these functions: the states use the helper structs.
use Prim.Native.String.{◌++◌ as append}
use text.Mathlib.Text.{◌==◌ as str_eq}
use mo_vm.Common.{ℕ, ◌==◌, String, Option, none, some, List, [], ◌∷◌, length, if◌then◌else◌}
use mo_vm.Error.{Outcome, ok, err}
use mo_vm.Error.Try.{◌>>=◌}
use mo_vm.Vcpu.{Regs, Sregs, Fpu, zero_regs, MsrEntry}
use mo_vm.Snapshot.Format.{Format, serialize_fields}
use mo_vm.Snapshot.Serial.{
  Layout, visit_map, map_only, once, required, serialize_vec, deserialize_vec,
}

-- The register of a name, as an assignment.
abbrev pub setter : String → Option (ℕ → Regs → Regs)
setter key =
    if str_eq key "rax"
    then some (λ n regs. record regs { rax = n })
    else if str_eq key "rbx"
    then some (λ n regs. record regs { rbx = n })
    else if str_eq key "rcx"
    then some (λ n regs. record regs { rcx = n })
    else if str_eq key "rdx"
    then some (λ n regs. record regs { rdx = n })
    else if str_eq key "rsi"
    then some (λ n regs. record regs { rsi = n })
    else if str_eq key "rdi"
    then some (λ n regs. record regs { rdi = n })
    else if str_eq key "rsp"
    then some (λ n regs. record regs { rsp = n })
    else if str_eq key "rbp"
    then some (λ n regs. record regs { rbp = n })
    else if str_eq key "r8"
    then some (λ n regs. record regs { r8 = n })
    else if str_eq key "r9"
    then some (λ n regs. record regs { r9 = n })
    else if str_eq key "r10"
    then some (λ n regs. record regs { r10 = n })
    else if str_eq key "r11"
    then some (λ n regs. record regs { r11 = n })
    else if str_eq key "r12"
    then some (λ n regs. record regs { r12 = n })
    else if str_eq key "r13"
    then some (λ n regs. record regs { r13 = n })
    else if str_eq key "r14"
    then some (λ n regs. record regs { r14 = n })
    else if str_eq key "r15"
    then some (λ n regs. record regs { r15 = n })
    else if str_eq key "rip"
    then some (λ n regs. record regs { rip = n })
    else if str_eq key "rflags"
    then some (λ n regs. record regs { rflags = n })
    else none

module _ (F : Format) where
  -- The fields that `serialize_kvm_regs` writes, in order.
  abbrev pub reg_fields : Regs → List (String × Outcome F.Value)
  reg_fields regs =
      ("rax", F.serialize_number 64 regs.rax)
      ∷ ("rbx", F.serialize_number 64 regs.rbx)
      ∷ ("rcx", F.serialize_number 64 regs.rcx)
      ∷ ("rdx", F.serialize_number 64 regs.rdx)
      ∷ ("rsi", F.serialize_number 64 regs.rsi)
      ∷ ("rdi", F.serialize_number 64 regs.rdi)
      ∷ ("rsp", F.serialize_number 64 regs.rsp)
      ∷ ("rbp", F.serialize_number 64 regs.rbp)
      ∷ ("r8", F.serialize_number 64 regs.r8)
      ∷ ("r9", F.serialize_number 64 regs.r9)
      ∷ ("r10", F.serialize_number 64 regs.r10)
      ∷ ("r11", F.serialize_number 64 regs.r11)
      ∷ ("r12", F.serialize_number 64 regs.r12)
      ∷ ("r13", F.serialize_number 64 regs.r13)
      ∷ ("r14", F.serialize_number 64 regs.r14)
      ∷ ("r15", F.serialize_number 64 regs.r15)
      ∷ ("rip", F.serialize_number 64 regs.rip)
      ∷ ("rflags", F.serialize_number 64 regs.rflags)
      ∷ []

  -- The length that is announced is 20, and 18 fields follow.
  unfoldable pub serialize_kvm_regs : Regs → Outcome F.Value
  serialize_kvm_regs regs = serialize_fields F "kvm_regs" 20 (reg_fields regs)

  unfoldable pub on_reg : String → F.Value → Regs → Outcome Regs
  on_reg key v regs = elim (setter key) [
    | some set ↦ F.deserialize_number 64 v >>= λ n. ok (set n regs)
    | none ↦ F.deserialize_ignored_any v >>= λ _. ok regs
  ]

  unfoldable pub deserialize_kvm_regs : F.Value → Outcome Regs
  deserialize_kvm_regs v = do
    driven ← F.deserialize_map v
    map_only F "struct kvm_regs" (λ map. visit_map F on_reg map zero_regs) driven

  -- `serialize_kvm_sregs` and `serialize_kvm_fpu`.
  module _ {A : Type 0} (layout : Layout A) (name : String) where
    unfoldable pub serialize_raw : A → Outcome F.Value
    serialize_raw a = F.serialize_bytes (layout.as_bytes a)

    -- `name` is what the error says was expected.
    unfoldable pub deserialize_raw : F.Value → Outcome A
    deserialize_raw v = do
      bytes ← F.deserialize_bytes v
      if length bytes == layout.size_of
          then ok (layout.read bytes)
          else err (F.invalid_length (length bytes) name)

  -- The text that names what was expected; `decimal` prints a number.
  module _ (decimal : ℕ → String) (sregs_layout : Layout Sregs) (fpu_layout : Layout Fpu) where
    abbrev expected : String → ℕ → String
    expected name size = append name (append " (expected " (append (decimal size) " bytes)"))

    abbrev pub serialize_kvm_sregs : Sregs → Outcome F.Value
    serialize_kvm_sregs = serialize_raw sregs_layout (expected "kvm_sregs" (sregs_layout.size_of))

    abbrev pub deserialize_kvm_sregs : F.Value → Outcome Sregs
    deserialize_kvm_sregs =
        deserialize_raw sregs_layout (expected "kvm_sregs" (sregs_layout.size_of))

    abbrev pub serialize_kvm_fpu : Fpu → Outcome F.Value
    serialize_kvm_fpu = serialize_raw fpu_layout (expected "kvm_fpu" (fpu_layout.size_of))

    abbrev pub deserialize_kvm_fpu : F.Value → Outcome Fpu
    deserialize_kvm_fpu = deserialize_raw fpu_layout (expected "kvm_fpu" (fpu_layout.size_of))

  abbrev pub msr_fields : MsrEntry → List (String × Outcome F.Value)
  msr_fields e =
      ("index", F.serialize_number 32 e.index)
      ∷ ("reserved", F.serialize_number 32 e.reserved)
      ∷ ("data", F.serialize_number 64 e.data')
      ∷ []

  unfoldable pub serialize_kvm_msr_entry : MsrEntry → Outcome F.Value
  serialize_kvm_msr_entry e = serialize_fields F "kvm_msr_entry" 3 (msr_fields e)

  -- The variables of the visitor.
  pub record MsrSlots : Type 0 where
    pub index : Option ℕ
    pub reserved : Option ℕ
    pub data' : Option ℕ

  unfoldable pub on_msr : String → F.Value → MsrSlots → Outcome MsrSlots
  on_msr key v acc =
      if str_eq key "index"
      then (once F acc.index "index" (F.deserialize_number 32 v) >>= λ x.
          ok (record acc { index = x }))
      else if str_eq key "reserved"
      then (once F acc.reserved "reserved" (F.deserialize_number 32 v) >>= λ x.
          ok (record acc { reserved = x }))
      else if str_eq key "data"
      then (once F acc.data' "data" (F.deserialize_number 64 v) >>= λ x.
          ok (record acc { data' = x }))
      else (F.deserialize_ignored_any v >>= λ _. ok acc)

  unfoldable pub finish_msr : MsrSlots → Outcome MsrEntry
  finish_msr acc = do
    index ← required F acc.index "index"
    reserved ← required F acc.reserved "reserved"
    value ← required F acc.data' "data"
    ok (record { index = index; reserved = reserved; data' = value })

  abbrev pub no_msr : MsrSlots
  no_msr = record { index = none; reserved = none; data' = none }

  unfoldable pub deserialize_kvm_msr_entry : F.Value → Outcome MsrEntry
  deserialize_kvm_msr_entry v = do
    driven ← F.deserialize_map v
    map_only F "struct kvm_msr_entry" (λ map. visit_map F on_msr map no_msr >>= finish_msr) driven

  -- A sequence of `MsrEntrySerde`, whose derived code is given.
  module _ (serialize_element : MsrEntry → Outcome F.Value)
      (deserialize_element : F.Value → Outcome MsrEntry) where
    unfoldable pub serialize_msr_entries : List MsrEntry → Outcome F.Value
    serialize_msr_entries msrs = serialize_vec F serialize_element msrs

    unfoldable pub deserialize_msr_entries : F.Value → Outcome (List MsrEntry)
    deserialize_msr_entries v = deserialize_vec F deserialize_element v

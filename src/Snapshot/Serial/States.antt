-- ===== src/Snapshot/Serial/States.antt =====
-- rust-hypervisor/src/snapshot.rs: the `Serialize` and `Deserialize` of a machine's state.
use text.Mathlib.Text.{◌==◌ as str_eq}
use mo_vm.Common.{String, Option, none, List, [], ◌∷◌, if◌then◌else◌}
use mo_vm.Error.{Outcome, ok}
use mo_vm.Error.Try.{◌>>=◌}
use mo_vm.Vcpu.{Regs, Sregs, Fpu}
use mo_vm.Snapshot.{MemoryRegion, VcpuState, DeviceState, VmState}
use mo_vm.Snapshot.Format.{Format, serialize_fields}
use mo_vm.Snapshot.Serial.{
  Layout, visit_map, map_only, once, required, or_default, serialize_vec, deserialize_vec,
}
use mo_vm.Snapshot.Serial.Regions.{
  serialize_region, deserialize_region, serialize_device, deserialize_device,
}
use mo_vm.Snapshot.Serial.Vcpus.{serialize_vcpu, deserialize_vcpu}

module _ (F : Format) (regs_layout : Layout Regs) (sregs_layout : Layout Sregs)
    (fpu_layout : Layout Fpu) where
  abbrev pub vm_fields : VmState → List (String × Outcome F.Value)
  vm_fields self =
      ("memory_regions", serialize_vec F (serialize_region F) self.memory_regions)
      ∷ (
        "vcpu_states",
        serialize_vec F (serialize_vcpu F regs_layout sregs_layout fpu_layout) self.vcpu_states,
      )
      ∷ ("device_states", serialize_vec F (serialize_device F) self.device_states)
      ∷ []

  unfoldable pub serialize_vm : VmState → Outcome F.Value
  serialize_vm self = serialize_fields F "VmState" 3 (vm_fields self)

  -- The variables of the visitor.
  pub record VmStateSlots : Type 0 where
    pub memory_regions : Option (List MemoryRegion)
    pub device_states : Option (List DeviceState)
    pub vcpu_states : Option (List VcpuState)

  abbrev pub no_vm : VmStateSlots
  no_vm = record { memory_regions = none; device_states = none; vcpu_states = none }

  unfoldable pub on_vm : String → F.Value → VmStateSlots → Outcome VmStateSlots
  on_vm key v acc =
      if str_eq key "memory_regions"
      then (once F acc.memory_regions "memory_regions" (deserialize_vec F (deserialize_region F) v)
          >>= λ x. ok (record acc { memory_regions = x }))
      else if str_eq key "device_states"
      then (once F acc.device_states "device_states" (deserialize_vec F (deserialize_device F) v)
          >>= λ x. ok (record acc { device_states = x }))
      else if str_eq key "vcpu_states"
      then (once F acc.vcpu_states "vcpu_states"
            (deserialize_vec F (deserialize_vcpu F regs_layout sregs_layout fpu_layout) v)
          >>= λ x. ok (record acc { vcpu_states = x }))
      else (F.deserialize_ignored_any v >>= λ _. ok acc)

  unfoldable pub finish_vm : VmStateSlots → Outcome VmState
  finish_vm acc = do
    memory_regions ← required F acc.memory_regions "memory_regions"
    ok (record {
      memory_regions = memory_regions;
      device_states = or_default F acc.device_states [];
      vcpu_states = or_default F acc.vcpu_states [];
    })

  unfoldable pub deserialize_vm : F.Value → Outcome VmState
  deserialize_vm v = do
    driven ←
        F.deserialize_struct "VmState" ("memory_regions" ∷ "vcpu_states" ∷ "device_states" ∷ []) v
    map_only F "struct VmState" (λ map. visit_map F on_vm map no_vm >>= finish_vm) driven

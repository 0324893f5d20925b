-- ===== src/Snapshot/Serial/Regions.antt =====
-- rust-hypervisor/src/snapshot.rs: the `Serialize` and `Deserialize` of a memory region and of a device's state.
use text.Mathlib.Text.{◌==◌ as str_eq}
use mo_vm.Common.{ℕ, String, Option, none, List, [], ◌∷◌, if◌then◌else◌}
use mo_vm.Error.{Outcome, ok}
use mo_vm.Error.Try.{◌>>=◌}
use mo_vm.Snapshot.{MemoryRegion, DeviceState}
use mo_vm.Snapshot.Format.{Format, serialize_fields}
use mo_vm.Snapshot.Serial.{visit_map, map_only, once, required, serialize_vec, deserialize_vec}

module _ (F : Format) where
  -- `Vec<u8>`, a sequence of numbers.
  unfoldable pub serialize_vec_u8 : List ℕ → Outcome F.Value
  serialize_vec_u8 bytes = serialize_vec F (F.serialize_number 8) bytes

  unfoldable pub deserialize_vec_u8 : F.Value → Outcome (List ℕ)
  deserialize_vec_u8 v = deserialize_vec F (F.deserialize_number 8) v

  abbrev pub region_fields : MemoryRegion → List (String × Outcome F.Value)
  region_fields self =
      ("guest_addr", F.serialize_number 64 self.guest_addr)
      ∷ ("size", F.serialize_number 64 self.size)
      ∷ ("data", serialize_vec_u8 self.bytes)
      ∷ []

  unfoldable pub serialize_region : MemoryRegion → Outcome F.Value
  serialize_region self = serialize_fields F "MemoryRegion" 3 (region_fields self)

  -- The variables of the visitor.
  pub record MemoryRegionSlots : Type 0 where
    pub guest_addr : Option ℕ
    pub size : Option ℕ
    pub bytes : Option (List ℕ)

  abbrev pub no_region : MemoryRegionSlots
  no_region = record { guest_addr = none; size = none; bytes = none }

  unfoldable pub on_region : String → F.Value → MemoryRegionSlots → Outcome MemoryRegionSlots
  on_region key v acc =
      if str_eq key "guest_addr"
      then (once F acc.guest_addr "guest_addr" (F.deserialize_number 64 v) >>= λ x.
          ok (record acc { guest_addr = x }))
      else if str_eq key "size"
      then (once F acc.size "size" (F.deserialize_number 64 v) >>= λ x.
          ok (record acc { size = x }))
      else if str_eq key "data"
      then (once F acc.bytes "data" (deserialize_vec_u8 v) >>= λ x. ok (record acc { bytes = x }))
      else (F.deserialize_ignored_any v >>= λ _. ok acc)

  unfoldable pub finish_region : MemoryRegionSlots → Outcome MemoryRegion
  finish_region acc = do
    guest_addr ← required F acc.guest_addr "guest_addr"
    size ← required F acc.size "size"
    bytes ← required F acc.bytes "data"
    ok (record { guest_addr = guest_addr; size = size; bytes = bytes })

  unfoldable pub deserialize_region : F.Value → Outcome MemoryRegion
  deserialize_region v = do
    driven ← F.deserialize_struct "MemoryRegion" ("guest_addr" ∷ "size" ∷ "data" ∷ []) v
    map_only F "struct MemoryRegion" (λ map. visit_map F on_region map no_region >>= finish_region)
        driven

  abbrev pub device_fields : DeviceState → List (String × Outcome F.Value)
  device_fields self =
      ("device_type", F.serialize_str self.device_type)
      ∷ ("state", F.serialize_bytes self.state)
      ∷ []

  unfoldable pub serialize_device : DeviceState → Outcome F.Value
  serialize_device self = serialize_fields F "DeviceState" 2 (device_fields self)

  -- The variables of the visitor.
  pub record DeviceStateSlots : Type 0 where
    pub device_type : Option String
    pub state : Option (List ℕ)

  abbrev pub no_device : DeviceStateSlots
  no_device = record { device_type = none; state = none }

  unfoldable pub on_device : String → F.Value → DeviceStateSlots → Outcome DeviceStateSlots
  on_device key v acc =
      if str_eq key "device_type"
      then (once F acc.device_type "device_type" (F.deserialize_string v) >>= λ x.
          ok (record acc { device_type = x }))
      else if str_eq key "state"
      then (once F acc.state "state" (F.deserialize_bytes v) >>= λ x. ok (record acc { state = x }))
      else (F.deserialize_ignored_any v >>= λ _. ok acc)

  unfoldable pub finish_device : DeviceStateSlots → Outcome DeviceState
  finish_device acc = do
    device_type ← required F acc.device_type "device_type"
    state ← required F acc.state "state"
    ok (record { device_type = device_type; state = state })

  unfoldable pub deserialize_device : F.Value → Outcome DeviceState
  deserialize_device v = do
    driven ← F.deserialize_struct "DeviceState" ("device_type" ∷ "state" ∷ []) v
    map_only F "struct DeviceState" (λ map. visit_map F on_device map no_device >>= finish_device)
        driven

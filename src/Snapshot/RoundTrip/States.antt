-- ===== src/Snapshot/RoundTrip/States.antt =====
-- A snapshot's state comes back from a format that names fields, and not from one that does not.
use mo_vm.Common.{◌≡◌, refl, ◌⊎◌, inl, inr, List, [], ◌∷◌, map}
use mo_vm.Error.{ok, err}
use mo_vm.Error.Try.{All}
use mo_vm.Vcpu.{Regs, Sregs, Fpu}
use mo_vm.Snapshot.{VmState, DeviceState}
use mo_vm.Snapshot.Format.{
  Format, IsFaithful, IsSelfDescribing, IsPositional, Lends, serialize_fields-close,
}
use mo_vm.Snapshot.Serial.{Layout, visit_map, map_only, serialize_vec, deserialize_vec}
use mo_vm.Snapshot.Serial.Regions.{
  serialize_region, deserialize_region, serialize_device, deserialize_device,
}
use mo_vm.Snapshot.Serial.Vcpus.{serialize_vcpu, deserialize_vcpu}
use mo_vm.Snapshot.Serial.States.{vm_fields, serialize_vm, on_vm, finish_vm, deserialize_vm}
use mo_vm.Snapshot.RoundTrip.{
  deserialize_vec-serialize_vec, deserialize_vec-serialize_vec_self, visited,
}
use mo_vm.Snapshot.RoundTrip.Regions.{
  IsSizedRegion, deserialize_region-serialize_region, deserialize_device-serialize_device,
}
use mo_vm.Snapshot.RoundTrip.Vcpus.{IsSizedVcpu, unreserved_vcpu, deserialize_vcpu-serialize_vcpu}

-- The state with the reserved fields of its MSR entries cleared.
abbrev pub unreserved_vm : VmState → VmState
unreserved_vm s = record s { vcpu_states = map unreserved_vcpu s.vcpu_states }

module _ (regs_layout : Layout Regs) (sregs_layout : Layout Sregs) (fpu_layout : Layout Fpu) where
  -- Every number of the state fits its type.
  abbrev pub IsSizedVm : VmState → Type 0
  IsSizedVm s =
      All IsSizedRegion s.memory_regions
      × All (IsSizedVcpu regs_layout sregs_layout fpu_layout) s.vcpu_states

  module _ (F : Format) (L : IsFaithful F) where
    All-true : (ds : List DeviceState) → All (λ d. Unit {0}) ds
    All-true [] = tt
    All-true (d ∷ ds) = (tt, All-true ds)

    devices_back :
        IsSelfDescribing F L
        → (ds : List DeviceState) (v : F.Value) → Lends F ⊎ (ds ≡ [])
        → serialize_vec F (serialize_device F) ds ≡ ok v
        → deserialize_vec F (deserialize_device F) v ≡ ok ds
    devices_back N ds v (inl lends) e =
        deserialize_vec-serialize_vec_self F L (λ d. Unit {0}) (serialize_device F)
          (deserialize_device F) (λ d w _. deserialize_device-serialize_device F L N lends d w) ds v
          (All-true ds) e
    devices_back N [] v (inr none) e =
        deserialize_vec-serialize_vec_self F L (λ d. ⊥) (serialize_device F) (deserialize_device F)
          (λ d w h. absurd h) [] v tt e
    devices_back N (d ∷ ds) v (inr none) e = cc

    -- A state whose numbers fit their types and that was serialized by a format that names its fields
    -- is deserialized to the same state, with the reserved fields of the MSR entries cleared, if the
    -- format lends bytes or there are no device states.
    pub deserialize_vm-serialize_vm :
        IsSelfDescribing F L
        → (s : VmState) (v : F.Value) → IsSizedVm s
        → Lends F ⊎ (s.device_states ≡ [])
        → serialize_vm F regs_layout sregs_layout fpu_layout s ≡ ok v
        → deserialize_vm F regs_layout sregs_layout fpu_layout v ≡ ok (unreserved_vm s)
    unfolding serialize_vm deserialize_vm map_only visit_map on_vm finish_vm
    deserialize_vm-serialize_vm N s v (regions, vcpus) lends e =
        let (v1, e1, (v2, e2, (v3, e3, (driven, _)))) =
          visited F L N "VmState" 3 (vm_fields F regs_layout sregs_layout fpu_layout s) v e in
        rw
          (
            driven "VmState" ("memory_regions" ∷ "vcpu_states" ∷ "device_states" ∷ []),
            deserialize_vec-serialize_vec_self F L IsSizedRegion (serialize_region F)
                (deserialize_region F) (deserialize_region-serialize_region F L N) s.memory_regions
                v1 regions e1,
            deserialize_vec-serialize_vec F L (IsSizedVcpu regs_layout sregs_layout fpu_layout)
                (serialize_vcpu F regs_layout sregs_layout fpu_layout)
                (deserialize_vcpu F regs_layout sregs_layout fpu_layout) unreserved_vcpu
                (deserialize_vcpu-serialize_vcpu regs_layout sregs_layout fpu_layout F L N)
                s.vcpu_states v2 vcpus e2,
            devices_back N s.device_states v3 lends e3,
          )
          refl

    -- No state that could be serialized comes back from a format that gives structures as sequences:
    -- the visitor refuses the first one.
    pub deserialize_vm-positional :
        IsPositional F L
        → (s : VmState) (v : F.Value) → serialize_vm F regs_layout sregs_layout fpu_layout s ≡ ok v
        → deserialize_vm F regs_layout sregs_layout fpu_layout v
          ≡ err (F.unexpected_seq "struct VmState")
    unfolding serialize_vm deserialize_vm map_only
    deserialize_vm-positional N s v e =
        let (t, closed) =
          serialize_fields-close F "VmState" 3 (vm_fields F regs_layout sregs_layout fpu_layout s) v
            e in
        rw (N t v closed "VmState" ("memory_regions" ∷ "vcpu_states" ∷ "device_states" ∷ [])) refl

-- ===== src/Snapshot/RoundTrip/Regions.antt =====
-- Memory regions and device states come back from any format that names their fields.
use mo_vm.Common.{ℕ, ◌^◌, ◌<◌, ◌≡◌, refl, List, [], ◌∷◌}
use mo_vm.Error.{ok}
use mo_vm.Error.Try.{All}
use mo_vm.Snapshot.{MemoryRegion, DeviceState}
use mo_vm.Snapshot.Format.{Format, IsFaithful, IsSelfDescribing, Lends}
use mo_vm.Snapshot.Serial.{visit_map, map_only}
use mo_vm.Snapshot.Serial.Regions.{
  serialize_vec_u8, deserialize_vec_u8, region_fields, serialize_region, on_region, finish_region,
  deserialize_region, device_fields, serialize_device, on_device, finish_device, deserialize_device,
}
use mo_vm.Snapshot.RoundTrip.{deserialize_vec-serialize_vec_self, visited}

-- The numbers of a region fit their types.
abbrev pub IsSizedRegion : MemoryRegion → Type 0
IsSizedRegion r = (r.guest_addr < 2 ^ 64) × (r.size < 2 ^ 64) × All (λ b. b < 2 ^ 8) r.bytes

module _ (F : Format) (L : IsFaithful F) where
  deserialize_vec_u8-serialize_vec_u8 :
      (bs : List ℕ) (v : F.Value)
      → All (λ b. b < 2 ^ 8) bs
      → serialize_vec_u8 F bs ≡ ok v
      → deserialize_vec_u8 F v ≡ ok bs
  unfolding serialize_vec_u8 deserialize_vec_u8
  deserialize_vec_u8-serialize_vec_u8 bs v p e =
      deserialize_vec-serialize_vec_self F L (λ b. b < 2 ^ 8) (F.serialize_number 8)
        (F.deserialize_number 8) (λ n v h e. L.number 8 n v h e) bs v p e

  module _ (N : IsSelfDescribing F L) where
    pub deserialize_region-serialize_region :
        (r : MemoryRegion) (v : F.Value)
        → IsSizedRegion r
        → serialize_region F r ≡ ok v
        → deserialize_region F v ≡ ok r
    unfolding serialize_region deserialize_region map_only visit_map on_region finish_region
    deserialize_region-serialize_region r v (small, sized, bytes) e =
        let (v1, e1, (v2, e2, (v3, e3, (driven, _)))) =
          visited F L N "MemoryRegion" 3 (region_fields F r) v e in
        rw
          (
            driven "MemoryRegion" ("guest_addr" ∷ "size" ∷ "data" ∷ []),
            L.number 64 r.guest_addr v1 small e1,
            L.number 64 r.size v2 sized e2,
            deserialize_vec_u8-serialize_vec_u8 r.bytes v3 bytes e3,
          )
          refl

    pub deserialize_device-serialize_device :
        (lends : Lends F) (d : DeviceState) (v : F.Value)
        → serialize_device F d ≡ ok v
        → deserialize_device F v ≡ ok d
    unfolding serialize_device deserialize_device map_only visit_map on_device finish_device
    deserialize_device-serialize_device lends d v e =
        let (v1, e1, (v2, e2, (driven, _))) =
          visited F L N "DeviceState" 2 (device_fields F d) v e in
        rw
          (
            driven "DeviceState" ("device_type" ∷ "state" ∷ []),
            L.str d.device_type v1 e1,
            lends d.state v2 e2,
          )
          refl

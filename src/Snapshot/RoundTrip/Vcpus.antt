-- ===== src/Snapshot/RoundTrip/Vcpus.antt =====
-- The states of vCPUs come back, but for the reserved field of an MSR entry.
use mo_vm.Common.{◌^◌, ◌<◌, ◌≡◌, refl, List, [], ◌∷◌, map}
use mo_vm.Error.{ok}
use mo_vm.Error.Try.{◌>>=◌, >>=-eq-ok, All}
use mo_vm.Vcpu.{Regs, Sregs, Fpu, MsrEntry}
use mo_vm.Snapshot.{VcpuState}
use mo_vm.Snapshot.Format.{Format, IsFaithful, IsSelfDescribing}
use mo_vm.Snapshot.Serial.{Layout, visit_map, map_only}
use mo_vm.Snapshot.Serial.Vcpus.{
  from_regs, into_regs, from_sregs, into_sregs, from_fpu, into_fpu, serialize_pair, serialize_pairs,
  deserialize_pair, deserialize_pairs, vcpu_fields, serialize_vcpu, on_vcpu, finish_vcpu,
  deserialize_vcpu,
}
use mo_vm.Snapshot.RoundTrip.{deserialize_vec-serialize_vec, into_struct-as_bytes, visited}

abbrev pub IsSizedMsr : MsrEntry → Type 0
IsSizedMsr e = (e.index < 2 ^ 32) × (e.data' < 2 ^ 64)

-- An entry with its reserved field cleared.
abbrev pub unreserved : MsrEntry → MsrEntry
unreserved e = record e { reserved = 0 }

abbrev pub unreserved_vcpu : VcpuState → VcpuState
unreserved_vcpu s = record s { msrs = map unreserved s.msrs }

module _ (regs_layout : Layout Regs) (sregs_layout : Layout Sregs) (fpu_layout : Layout Fpu) where
  -- The numbers of a state fit their types.
  abbrev pub IsSizedVcpu : VcpuState → Type 0
  IsSizedVcpu s =
      (s.id < 2 ^ 32)
      × regs_layout.Fits s.regs
      × sregs_layout.Fits s.sregs
      × fpu_layout.Fits s.fpu
      × All IsSizedMsr s.msrs

  module _ (F : Format) (L : IsFaithful F) where
    deserialize_pair-serialize_pair :
        (e : MsrEntry) (v : F.Value)
        → IsSizedMsr e
        → serialize_pair F regs_layout sregs_layout fpu_layout e ≡ ok v
        → deserialize_pair F regs_layout sregs_layout fpu_layout v ≡ ok (unreserved e)
    unfolding serialize_pair deserialize_pair
    deserialize_pair-serialize_pair e v (small, sized) h =
        let (v1, e1, h') =
          >>=-eq-ok (F.serialize_number 32 e.index)
            (λ index. F.serialize_number 64 e.data' >>= λ value. F.serialize_tuple index value) h in
        let (v2, e2, h'') =
          >>=-eq-ok (F.serialize_number 64 e.data') (λ value. F.serialize_tuple v1 value) h' in
        rw (L.tuple v1 v2 v h'', L.number 32 e.index v1 small e1, L.number 64 e.data' v2 sized e2)
          refl

    deserialize_pairs-serialize_pairs :
        (msrs : List MsrEntry) (v : F.Value)
        → All IsSizedMsr msrs
        → serialize_pairs F regs_layout sregs_layout fpu_layout msrs ≡ ok v
        → deserialize_pairs F regs_layout sregs_layout fpu_layout v ≡ ok (map unreserved msrs)
    unfolding serialize_pairs deserialize_pairs
    deserialize_pairs-serialize_pairs =
        deserialize_vec-serialize_vec F L IsSizedMsr
          (serialize_pair F regs_layout sregs_layout fpu_layout)
          (deserialize_pair F regs_layout sregs_layout fpu_layout) unreserved
          deserialize_pair-serialize_pair

    module _ (N : IsSelfDescribing F L) where
      pub deserialize_vcpu-serialize_vcpu :
          (s : VcpuState) (v : F.Value)
          → IsSizedVcpu s
          → serialize_vcpu F regs_layout sregs_layout fpu_layout s ≡ ok v
          → deserialize_vcpu F regs_layout sregs_layout fpu_layout v ≡ ok (unreserved_vcpu s)
      unfolding serialize_vcpu deserialize_vcpu map_only visit_map on_vcpu finish_vcpu from_regs
          into_regs from_sregs into_sregs from_fpu into_fpu
      deserialize_vcpu-serialize_vcpu s v (small, regs, sregs, fpu, msrs) e =
          let (v1, e1, (v2, e2, (v3, e3, (v4, e4, (v5, e5, (driven, _)))))) =
            visited F L N "VcpuState" 5 (vcpu_fields F regs_layout sregs_layout fpu_layout s) v e in
          rw
            (
              driven "VcpuState" ("id" ∷ "regs" ∷ "sregs" ∷ "fpu" ∷ "msrs" ∷ []),
              L.number 32 s.id v1 small e1,
              into_struct-as_bytes F L regs_layout "SerdeRegs" s.regs v2 regs e2,
              into_struct-as_bytes F L sregs_layout "SerdeSregs" s.sregs v3 sregs e3,
              into_struct-as_bytes F L fpu_layout "SerdeFpu" s.fpu v4 fpu e4,
              deserialize_pairs-serialize_pairs s.msrs v5 msrs e5,
            )
            refl

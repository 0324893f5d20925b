-- ===== src/Snapshot/RoundTrip/Kvm.antt =====
-- KVM's structures come back by the functions that write them field by field or as bytes.
use mo_vm.Common.{◌^◌, ◌<◌, ◌≡◌, refl, String, ==_iff}
use mo_vm.Error.{ok}
use mo_vm.Vcpu.{Regs, MsrEntry}
use mo_vm.Snapshot.Format.{Format, IsFaithful, IsSelfDescribing, Lends}
use mo_vm.Snapshot.Serial.{Layout, visit_map, map_only}
use mo_vm.Snapshot.Serial.Kvm.{
  reg_fields, serialize_kvm_regs, on_reg, deserialize_kvm_regs, serialize_raw, deserialize_raw,
  msr_fields, serialize_kvm_msr_entry, on_msr, finish_msr, deserialize_kvm_msr_entry,
}
use mo_vm.Snapshot.RoundTrip.{visited}

-- Every register fits 64 bits.
pub record IsSizedRegs (r : Regs) : Type 0 where
  pub rax_small : r.rax < 2 ^ 64
  pub rbx_small : r.rbx < 2 ^ 64
  pub rcx_small : r.rcx < 2 ^ 64
  pub rdx_small : r.rdx < 2 ^ 64
  pub rsi_small : r.rsi < 2 ^ 64
  pub rdi_small : r.rdi < 2 ^ 64
  pub rsp_small : r.rsp < 2 ^ 64
  pub rbp_small : r.rbp < 2 ^ 64
  pub r8_small : r.r8 < 2 ^ 64
  pub r9_small : r.r9 < 2 ^ 64
  pub r10_small : r.r10 < 2 ^ 64
  pub r11_small : r.r11 < 2 ^ 64
  pub r12_small : r.r12 < 2 ^ 64
  pub r13_small : r.r13 < 2 ^ 64
  pub r14_small : r.r14 < 2 ^ 64
  pub r15_small : r.r15 < 2 ^ 64
  pub rip_small : r.rip < 2 ^ 64
  pub rflags_small : r.rflags < 2 ^ 64

module _ (F : Format) (L : IsFaithful F) (N : IsSelfDescribing F L) where
  pub deserialize_kvm_regs-serialize_kvm_regs :
      (r : Regs) (v : F.Value)
      → IsSizedRegs r
      → serialize_kvm_regs F r ≡ ok v
      → deserialize_kvm_regs F v ≡ ok r
  unfolding serialize_kvm_regs deserialize_kvm_regs map_only visit_map on_reg
  deserialize_kvm_regs-serialize_kvm_regs r v h e =
      let (
        v1,
        e1,
        (
          v2,
          e2,
          (
            v3,
            e3,
            (
              v4,
              e4,
              (
                v5,
                e5,
                (
                  v6,
                  e6,
                  (
                    v7,
                    e7,
                    (
                      v8,
                      e8,
                      (
                        v9,
                        e9,
                        (
                          v10,
                          e10,
                          (
                            v11,
                            e11,
                            (
                              v12,
                              e12,
                              (
                                v13,
                                e13,
                                (
                                  v14,
                                  e14,
                                  (v15, e15, (v16, e16, (v17, e17, (v18, e18, (_, driven))))),
                                ),
                              ),
                            ),
                          ),
                        ),
                      ),
                    ),
                  ),
                ),
              ),
            ),
          ),
        ),
      ) =
        visited F L N "kvm_regs" 20 (reg_fields F r) v e in
      rw
        (
          driven,
          L.number 64 r.rax v1 h.rax_small e1,
          L.number 64 r.rbx v2 h.rbx_small e2,
          L.number 64 r.rcx v3 h.rcx_small e3,
          L.number 64 r.rdx v4 h.rdx_small e4,
          L.number 64 r.rsi v5 h.rsi_small e5,
          L.number 64 r.rdi v6 h.rdi_small e6,
          L.number 64 r.rsp v7 h.rsp_small e7,
          L.number 64 r.rbp v8 h.rbp_small e8,
          L.number 64 r.r8 v9 h.r8_small e9,
          L.number 64 r.r9 v10 h.r9_small e10,
          L.number 64 r.r10 v11 h.r10_small e11,
          L.number 64 r.r11 v12 h.r11_small e12,
          L.number 64 r.r12 v13 h.r12_small e13,
          L.number 64 r.r13 v14 h.r13_small e14,
          L.number 64 r.r14 v15 h.r14_small e15,
          L.number 64 r.r15 v16 h.r15_small e16,
          L.number 64 r.rip v17 h.rip_small e17,
          L.number 64 r.rflags v18 h.rflags_small e18,
        )
        refl

  pub deserialize_kvm_msr_entry-serialize_kvm_msr_entry :
      (m : MsrEntry) (v : F.Value)
      → (m.index < 2 ^ 32) × (m.reserved < 2 ^ 32) × (m.data' < 2 ^ 64)
      → serialize_kvm_msr_entry F m ≡ ok v
      → deserialize_kvm_msr_entry F v ≡ ok m
  unfolding serialize_kvm_msr_entry deserialize_kvm_msr_entry map_only visit_map on_msr finish_msr
  deserialize_kvm_msr_entry-serialize_kvm_msr_entry m v (a, b, c) e =
      let (v1, e1, (v2, e2, (v3, e3, (_, driven)))) =
        visited F L N "kvm_msr_entry" 3 (msr_fields F m) v e in
      rw
        (
          driven,
          L.number 32 m.index v1 a e1,
          L.number 32 m.reserved v2 b e2,
          L.number 64 m.data' v3 c e3,
        )
        refl

-- `serialize_kvm_sregs` and `serialize_kvm_fpu`: the format has to lend bytes.
pub deserialize_raw-serialize_raw :
    (F : Format) {A : Type 0} (layout : Layout A) (name : String) (a : A) (v : F.Value)
    → Lends F
    → layout.Fits a
    → serialize_raw F layout name a ≡ ok v
    → deserialize_raw F layout name v ≡ ok a
unfolding serialize_raw deserialize_raw
deserialize_raw-serialize_raw F layout name a v lends fits e =
    rw
      (
        lends (layout.as_bytes a) v e,
        layout.length-as_bytes a fits,
        (==_iff layout.size_of layout.size_of).1 refl,
        layout.read-as_bytes a fits,
      )
      refl

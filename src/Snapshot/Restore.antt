-- ===== src/Snapshot/Restore.antt =====
-- What a snapshot's vCPU states bring back.
use mo_vm.Common.{ℕ, ◌%◌, ◌^◌, ◌≡◌, refl, ap₂, String, none, List, [], ◌∷◌, arith}
use mo_vm.Error.{ok}
use mo_vm.Vcpu.{
  Vcpu, Ioctl, ioctl, get_regs_ioctl, set_regs_ioctl, get_sregs_ioctl, set_sregs_ioctl,
  get_fpu_ioctl, set_fpu_ioctl,
}
use mo_vm.Snapshot.{
  VcpuState, as_io, save_vcpu_state, restore_vcpu_state, collected, save_vcpu_states, restored_on,
  restore_vcpu_states,
}

-- Every ioctl works on every vCPU of the list.
abbrev pub AllWork : List Vcpu → Type 0
AllWork [] = Unit {0}
AllWork (vcpu ∷ vcpus) = ((call : Ioctl) → vcpu.failures call ≡ none) × AllWork vcpus

-- The vCPUs of `onto`, one by one with the registers of those of `from`, as far as both go.
abbrev pub copied : List Vcpu → List Vcpu → List Vcpu
copied [] onto = onto
copied (v ∷ from) [] = []
copied (v ∷ from) (w ∷ onto) =
    record w { regs = v.regs; sregs = v.sregs; fpu = v.fpu } ∷ copied from onto

-- The state that is saved of a vCPU.
abbrev pub state_of : Vcpu → VcpuState
state_of v = record { id = v.id % 2 ^ 32; regs = v.regs; sregs = v.sregs; fpu = v.fpu; msrs = [] }

abbrev pub states_of : List Vcpu → List VcpuState
states_of [] = []
states_of (v ∷ vs) = state_of v ∷ states_of vs

module _ (strerror : ℕ → String) where
  save_vcpu_state-state_of :
      (v : Vcpu)
      → ((call : Ioctl) → v.failures call ≡ none)
      → (save_vcpu_state strerror v).1 ≡ ok (state_of v)
  unfolding save_vcpu_state as_io ioctl
  save_vcpu_state-state_of v works =
      let f = λ (call : Ioctl). works call in
      ground (arith, f get_regs_ioctl, f get_sregs_ioctl, f get_fpu_ioctl)

  restore_vcpu_state-copied :
      (v w : Vcpu)
      → ((call : Ioctl) → w.failures call ≡ none)
      → restore_vcpu_state strerror (state_of v) w
        ≡ (record w { regs = v.regs; sregs = v.sregs; fpu = v.fpu }, ok tt)
  unfolding restore_vcpu_state as_io ioctl
  restore_vcpu_state-copied v w works =
      let f = λ (call : Ioctl). works call in
      ground (arith, f set_regs_ioctl, f set_sregs_ioctl, f set_fpu_ioctl)

  pub save_vcpu_states-states_of :
      (vs : List Vcpu) → AllWork vs → save_vcpu_states strerror vs ≡ ok (states_of vs)
  unfolding save_vcpu_states collected
  save_vcpu_states-states_of [] works = refl
  save_vcpu_states-states_of (v ∷ vs) (works, more) =
      ap₂ (collected strerror) (save_vcpu_state-state_of v works)
        (save_vcpu_states-states_of vs more)

  pub restore_vcpu_states-copied :
      (vs ws : List Vcpu)
      → AllWork ws
      → restore_vcpu_states strerror (states_of vs) ws ≡ (copied vs ws, ok tt)
  unfolding restore_vcpu_states restored_on
  restore_vcpu_states-copied [] ws works = refl
  restore_vcpu_states-copied (v ∷ vs) [] works = refl
  restore_vcpu_states-copied (v ∷ vs) (w ∷ ws) (works, more) =
      ap₂ (λ x y. restored_on strerror x ws y) (restore_vcpu_state-copied v w works)
        (restore_vcpu_states-copied vs ws more)

  -- With every ioctl working, the vCPU states of a snapshot can be taken, and restoring them onto any vCPUs
  -- succeeds: one by one, as far as both lists go, the general, segment and FPU registers become those
  -- that were saved. Nothing else of a vCPU changes, so MSRs are not brought back.
  pub save_vcpu_states-restore :
      (vs ws : List Vcpu)
      → AllWork vs
      → AllWork ws
      → (states : List VcpuState) × (save_vcpu_states strerror vs ≡ ok states)
        × (restore_vcpu_states strerror states ws ≡ (copied vs ws, ok tt))
  save_vcpu_states-restore vs ws works works' =
      (states_of vs, save_vcpu_states-states_of vs works, restore_vcpu_states-copied vs ws works')

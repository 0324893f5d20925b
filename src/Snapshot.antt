-- ===== src/Snapshot.antt =====
-- rust-hypervisor/src/snapshot.rs: the states of a snapshot, and those of the vCPUs, taken and restored.
-- `strerror` is the text of an errno.
pub mod Restore
pub mod Format
pub mod Serial
pub mod RoundTrip
pub mod Memory
pub mod Manager
pub mod Tests
use mo_vm.Common.{ℕ, ◌%◌, ◌^◌, String, List, [], ◌∷◌}
use mo_vm.Error.{HypervisorError, kvm_error, io_error, other, Outcome, ok, err, panic}
use mo_vm.Error.Action.{Action, return, ◌>>=◌, ◌>>◌}
use mo_vm.Vcpu.{
  Regs, Sregs, Fpu, MsrEntry, Vcpu, get_regs, set_regs, get_sregs, set_sregs, get_fpu, set_fpu,
}

pub record MemoryRegion : Type 0 where
  pub guest_addr : ℕ
  pub size : ℕ
  pub bytes : List ℕ

pub record DeviceState : Type 0 where
  pub device_type : String
  pub state : List ℕ

pub record VcpuState : Type 0 where
  pub id : ℕ
  pub regs : Regs
  pub sregs : Sregs
  pub fpu : Fpu
  pub msrs : List MsrEntry

pub record VmState : Type 0 where
  pub memory_regions : List MemoryRegion
  pub vcpu_states : List VcpuState
  pub device_states : List DeviceState

module _ (strerror : ℕ → String) where
  -- `map_err(|e| io::Error::new(io::ErrorKind::Other, e))` around an ioctl.
  abbrev as_io_error : HypervisorError → HypervisorError
  as_io_error (kvm_error errno) = io_error (record { kind = other; message = strerror errno })
  as_io_error e = e

  unfoldable pub as_io : {A : Type 0} → Vcpu × Outcome A → Vcpu × Outcome A
  as_io (vcpu, ok a) = (vcpu, ok a)
  as_io (vcpu, err e) = (vcpu, err (as_io_error e))
  as_io (vcpu, panic) = (vcpu, panic)

  -- The number is cut to 32 bits, and no MSR is read.
  unfoldable pub save_vcpu_state : Action Vcpu VcpuState
  save_vcpu_state = do
    regs ← λ vcpu. as_io (get_regs vcpu)
    sregs ← λ vcpu. as_io (get_sregs vcpu)
    fpu ← λ vcpu. as_io (get_fpu vcpu)
    λ vcpu. (
      vcpu,
      ok (record { id = vcpu.id % 2 ^ 32; regs = regs; sregs = sregs; fpu = fpu; msrs = [] }),
    )

  unfoldable pub restore_vcpu_state : VcpuState → Action Vcpu (Unit {0})
  restore_vcpu_state state = do
    λ vcpu. as_io (set_regs state.regs vcpu)
    λ vcpu. as_io (set_sregs state.sregs vcpu)
    λ vcpu. as_io (set_fpu state.fpu vcpu)

  collected : Outcome VcpuState → Outcome (List VcpuState) → Outcome (List VcpuState)
  collected (ok state) (ok states) = ok (state ∷ states)
  collected (ok state) (err e) = err e
  collected (ok state) panic = panic
  collected (err e) rest = err e
  collected panic rest = panic

  -- The vCPU states of `create_snapshot`, up to the first that fails. Reading changes no vCPU.
  unfoldable pub save_vcpu_states : List Vcpu → Outcome (List VcpuState)
  unfolding collected
  save_vcpu_states [] = ok []
  save_vcpu_states (vcpu ∷ vcpus) = collected (save_vcpu_state vcpu).1 (save_vcpu_states vcpus)

  restored_on :
      Vcpu × Outcome (Unit {0})
      → List Vcpu
      → List Vcpu × Outcome (Unit {0})
      → List Vcpu × Outcome (Unit {0})
  restored_on (vcpu, ok _) vcpus (vcpus', r) = (vcpu ∷ vcpus', r)
  restored_on (vcpu, err e) vcpus rest = (vcpu ∷ vcpus, err e)
  restored_on (vcpu, panic) vcpus rest = (vcpu ∷ vcpus, panic)

  -- The loop of `restore_snapshot` over the vCPU states: a state without a vCPU is skipped.
  unfoldable pub restore_vcpu_states : List VcpuState → Action (List Vcpu) (Unit {0})
  unfolding restored_on
  restore_vcpu_states [] vcpus = (vcpus, ok tt)
  restore_vcpu_states (state ∷ states) [] = ([], ok tt)
  restore_vcpu_states (state ∷ states) (vcpu ∷ vcpus) =
      restored_on (restore_vcpu_state state vcpu) vcpus (restore_vcpu_states states vcpus)

-- ===== src/Snapshot/Manager.antt =====
-- rust-hypervisor/src/snapshot.rs: `SnapshotManager`. bincode, the host's file system and the answers of KVM are
-- arguments. A `Box<dyn Error>` is the error that it holds: an `io::Error` as `io_error`, bincode's as
-- `bincode_error`, and a `HypervisorError`, which here is a `memory_error`.
pub mod Files
use Prim.Native.String.{◌++◌ as append}
use mo_vm.Common.{ℕ, ◌≡◌, String, Option, none, some, List, [], ◌∷◌, lookup, insert}
use mo_vm.Error.{
  IoError, other, HypervisorError, io_error, bincode_error, to_string, Outcome, ok, err, panic,
}
use mo_vm.Error.Try.{◌>>=◌}
use mo_vm.Error.Action.{Action, after}
use mo_vm.Vcpu.{Vcpu, Regs, Sregs, Fpu}
use mo_vm.Snapshot.{VmState, save_vcpu_states, restore_vcpu_states}
use mo_vm.Snapshot.Format.{Format}
use mo_vm.Snapshot.Serial.{Layout}
use mo_vm.Snapshot.Serial.States.{serialize_vm, deserialize_vm}
use mo_vm.Snapshot.Memory.{Mapping, save_memory, restore_memory}

-- `bincode::serialize_into` and `deserialize_from`: a format, and its values as the bytes of files. What a
-- write that fails leaves in the file is not known.
pub record Encoding : Type 1 where
  pub format : Format
  pub Bytes : Type 0
  pub no_bytes : Bytes
  pub serialize_into : Outcome format.Value → Bytes × Outcome (Unit {0})
  pub deserialize_from : Bytes → Outcome format.Value
  pub written :
      (r : Outcome format.Value)
      → (serialize_into r).1 ≡ ok tt
      → (v : format.Value) × (r ≡ ok v) × (deserialize_from (serialize_into r).0 ≡ ok v)

-- How the host's file system answers: the error of creating or opening a file, or of a path that is not
-- there.
pub record Answers : Type 0 where
  pub create : String → Option IoError
  pub open_file : String → Option IoError
  pub missing : IoError

-- `e.to_string()` for the boxed error.
unfoldable pub boxed_text : (ℕ → String) → HypervisorError → String
boxed_text strerror (io_error e) = e.message
boxed_text strerror (bincode_error text) = text
boxed_text strerror e = to_string strerror e

module _ (M : Mapping) (decimal strerror : ℕ → String) where
  -- What the manager reaches: the memory and the vCPUs.
  abbrev pub Reach : Type 0
  Reach = List M.Region × List Vcpu

  unfoldable pub create_snapshot : Reach → Outcome VmState
  create_snapshot (memory, vcpus) = do
    memory_regions ← save_memory M memory
    vcpu_states ← save_vcpu_states strerror vcpus
    ok (record { memory_regions = memory_regions; vcpu_states = vcpu_states; device_states = [] })

  with_vcpus : List M.Region → List Vcpu × Outcome (Unit {0}) → Reach × Outcome (Unit {0})
  with_vcpus memory (vcpus, outcome) = ((memory, vcpus), outcome)

  restored : VmState → List Vcpu → List M.Region × Outcome (Unit {0}) → Reach × Outcome (Unit {0})
  unfolding with_vcpus
  restored state vcpus (memory, ok _) =
      with_vcpus memory (restore_vcpu_states strerror state.vcpu_states vcpus)
  restored state vcpus (memory, err e) = ((memory, vcpus), err e)
  restored state vcpus (memory, panic) = ((memory, vcpus), panic)

  unfoldable pub restore_snapshot : VmState → Action Reach (Unit {0})
  unfolding restored
  restore_snapshot state (memory, vcpus) =
      restored state vcpus (restore_memory M decimal state.memory_regions memory)

  module _ (B : Encoding) (regs_layout : Layout Regs) (sregs_layout : Layout Sregs)
      (fpu_layout : Layout Fpu) (host : Answers) where
    abbrev pub Files : Type 0
    Files = List (String × B.Bytes)

    -- `File::create(path)?`, which empties the file, and `serialize_into`.
    write_file : String → VmState → Files → Files × Outcome (Unit {0})
    write_file path state files = elim (host.create path) [
      | some e ↦ (files, err (io_error e))
      | none ↦
          let (bytes, outcome) =
            B.serialize_into (serialize_vm B.format regs_layout sregs_layout fpu_layout state) in
          (insert path bytes files, outcome)
    ]

    saved : String → Outcome VmState → Action Files (Unit {0})
    unfolding write_file
    saved path (ok state) files = write_file path state files
    saved path (err e) files = (files, err e)
    saved path panic files = (files, panic)

    unfoldable pub save_to_file : String → Reach → Action Files (Unit {0})
    unfolding saved
    save_to_file path reach files = saved path (create_snapshot reach) files

    -- `File::open(path)?` and `deserialize_from`.
    read_file : String → Files → Outcome VmState
    read_file path files = elim (host.open_file path) [
      | some e ↦ err (io_error e)
      | none ↦ elim (lookup files path) [
        | none ↦ err (io_error host.missing)
        | some bytes ↦
            B.deserialize_from bytes >>= deserialize_vm B.format regs_layout sregs_layout fpu_layout
      ]
    ]

    loaded : Outcome VmState → Action Reach (Unit {0})
    loaded (ok state) reach = restore_snapshot state reach
    loaded (err e) reach = (reach, err e)
    loaded panic reach = (reach, panic)

    unfoldable pub load_from_file : String → Files → Action Reach (Unit {0})
    unfolding loaded read_file
    load_from_file path files reach = loaded (read_file path files) reach

-- ===== src/Snapshot/Tests/Files.antt =====
-- Snapshots of a small machine in a format that names fields, and in one that does not.
use mo_vm.Common.{
  chunks, chunks_in, ℕ, inl, ◌≡◌, refl, String, Option, none, some, List, [], ◌∷◌, map, arith,
}
use mo_vm.Error.{bincode_error, other, Outcome, ok, err, panic}
use mo_vm.Error.Try.{traverse}
use mo_vm.Vcpu.{Vcpu}
use mo_vm.Snapshot.Serial.{serialize_vec, serialize_newtype_bytes}
use mo_vm.Snapshot.Serial.States.{serialize_vm, deserialize_vm}
use mo_vm.Snapshot.Serial.Vcpus.{
  serialize_vcpu, from_regs, from_sregs, from_fpu, serialize_pair, serialize_pairs,
}
use mo_vm.Snapshot.Serial.Regions.{serialize_region, serialize_device, serialize_vec_u8}
use mo_vm.Snapshot.{MemoryRegion, VmState}
use mo_vm.Snapshot.Format.{serialize_fields, Driven}
use mo_vm.Snapshot.Format.Content.{
  Content, num, content, content-IsFaithful, content-Lends, named, positional,
  named-IsSelfDescribing, positional-IsPositional,
}
use mo_vm.Snapshot.Memory.Plain.{Plain, plain, find_region}
use mo_vm.Snapshot.Memory.Restored.{SameLayout}
use mo_vm.Snapshot.Memory.Places.{AllFit, restore_memory-AllFit}
use mo_vm.Snapshot.Memory.{restore_memory, restore_region, write_chunks, fits_region}
use mo_vm.Snapshot.RoundTrip.States.{unreserved_vm, deserialize_vm-serialize_vm}
use mo_vm.Snapshot.Manager.{
  Encoding, Answers, create_snapshot, restore_snapshot, save_to_file, load_from_file,
}
use mo_vm.Snapshot.Manager.Files.{
  restore_snapshot-create_snapshot, load_from_file-positional, save_to_file-ok,
}
use mo_vm.Snapshot.Tests.Layouts.{regs_layout, sregs_layout, fpu_layout}
use mo_vm.Snapshot.Tests.{cpu, running, text}

-- A file holds a tree, or nothing after a write that failed.
abbrev pub put : Outcome Content → Option Content × Outcome (Unit {0})
put (ok v) = (some v, ok tt)
put (err e) = (none, err e)
put panic = (none, panic)

abbrev pub get : Option Content → Outcome Content
get (some v) = ok v
get none = err (bincode_error "unexpected end of file")

pub put_back :
    (r : Outcome Content) → (put r).1 ≡ ok tt → (v : Content) × (r ≡ ok v) × (get (put r).0 ≡ ok v)
put_back (ok v) e = (v, refl, refl)
put_back (err x) e = absurd (ground arith)
put_back panic e = absurd (ground arith)

abbrev pub trees : (List (String × Content) → Driven Content) → Encoding
trees drive = record {
  format = content drive;
  Bytes = Option Content;
  no_bytes = none;
  serialize_into = put;
  deserialize_from = get;
  written = put_back;
}

abbrev pub host : Answers
host = record {
  create = λ path. none;
  open_file = λ path. none;
  missing = record { kind = other; message = "not found" };
}

abbrev region : ℕ → Plain
region b = record { start = 0x1000; bytes = b ∷ 7 ∷ [] }

abbrev pub by_name : Encoding
by_name = trees named

abbrev by_position : Encoding
by_position = trees positional

abbrev machine : List Plain × List Vcpu
machine = (region 1 ∷ [], running ∷ [])

-- A region of memory as it is saved, and a part of one.
abbrev saved_regions : List MemoryRegion
saved_regions =
    record { guest_addr = 0x1000; size = 2; bytes = 1 ∷ 7 ∷ [] }
    ∷ record { guest_addr = 0x1001; size = 1; bytes = 8 ∷ [] }
    ∷ []

restored_regions : (restore_memory plain text saved_regions (region 2 ∷ [])).1 ≡ ok tt
unfolding restore_memory restore_region write_chunks fits_region find_region chunks chunks_in
restored_regions = refl

restore_memory-AllFit_example : AllFit plain saved_regions (region 2 ∷ [])
restore_memory-AllFit_example =
    restore_memory-AllFit plain text saved_regions (region 2 ∷ []) restored_regions

-- A state with an MSR entry whose reserved field is set, and with a device.
abbrev full_state : VmState
full_state = record {
  memory_regions = saved_regions;
  vcpu_states =
      record {
        id = 1;
        regs = running.regs;
        sregs = running.sregs;
        fpu = running.fpu;
        msrs = record { index = 0xc0000080; reserved = 5; data' = 1 } ∷ [];
      }
      ∷ [];
  device_states = record { device_type = "console"; state = 3 ∷ 4 ∷ [] } ∷ [];
}

abbrev value_of : Outcome Content → Content
value_of (ok v) = v
value_of _ = num 0

abbrev full_value : Content
full_value = value_of (serialize_vm by_name.format regs_layout sregs_layout fpu_layout full_state)

full_value-serialized :
    serialize_vm by_name.format regs_layout sregs_layout fpu_layout full_state ≡ ok full_value
unfolding serialize_vm serialize_vcpu serialize_region serialize_device serialize_vec
    serialize_vec_u8 from_regs from_sregs from_fpu serialize_pair serialize_pairs
    serialize_newtype_bytes serialize_fields traverse
full_value-serialized = refl

deserialize_vm-serialize_vm_example :
    deserialize_vm by_name.format regs_layout sregs_layout fpu_layout full_value
    ≡ ok (unreserved_vm full_state)
deserialize_vm-serialize_vm_example =
    deserialize_vm-serialize_vm regs_layout sregs_layout fpu_layout by_name.format
      (content-IsFaithful named) named-IsSelfDescribing full_state full_value
      (
        (
          (omega arith, omega arith, (omega arith, (omega arith, tt))),
          ((omega arith, omega arith, (omega arith, tt)), tt),
        ),
        ((omega arith, tt, refl, refl, ((omega arith, omega arith), tt)), tt),
      )
      (inl (content-Lends named)) full_value-serialized

saves_by_position :
    (save_to_file plain text text by_position regs_layout sregs_layout fpu_layout host "snap"
      machine []).1
    ≡ ok tt
unfolding serialize_vm serialize_vcpu serialize_region serialize_vec serialize_vec_u8 from_regs
    from_sregs from_fpu serialize_pairs serialize_newtype_bytes serialize_fields traverse
saves_by_position =
    save_to_file-ok plain text text by_position regs_layout sregs_layout fpu_layout host "snap"
      (region 1 ∷ []) (running ∷ []) [] ((λ call. refl), tt) refl refl

restore_snapshot-create_snapshot_example :
    (state : VmState) × (create_snapshot plain text text machine ≡ ok state)
    × (ws' : List Plain) × (restore_snapshot plain text text state (region 2 ∷ [], cpu ∷ [])
        ≡ ((ws', running ∷ []), ok tt))
    × SameLayout plain (region 1 ∷ []) ws'
    × (map (λ r. plain.contents r) ws' ≡ (1 ∷ 7 ∷ []) ∷ [])
restore_snapshot-create_snapshot_example =
    restore_snapshot-create_snapshot plain text text 0 (region 1 ∷ []) (region 2 ∷ [])
      (running ∷ []) (cpu ∷ []) (omega arith) (refl, refl, tt) ((λ call. refl), tt)
      ((λ call. refl), tt)

load_from_file-positional_example :
    load_from_file plain text text by_position regs_layout sregs_layout fpu_layout host "snap"
      (save_to_file plain text text by_position regs_layout sregs_layout fpu_layout host "snap"
        machine []).0
      (region 2 ∷ [], cpu ∷ [])
    ≡ ((region 2 ∷ [], cpu ∷ []), err (bincode_error "invalid type: sequence"))
load_from_file-positional_example =
    load_from_file-positional plain text text by_position regs_layout sregs_layout fpu_layout host
      (content-IsFaithful positional) positional-IsPositional "snap" machine
      (region 2 ∷ [], cpu ∷ []) [] refl saves_by_position

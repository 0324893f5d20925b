-- ===== src/Snapshot/Manager/Files.antt =====
-- What a snapshot brings back, and what a snapshot file does not, by the kind of its format.
use mo_vm.Common.{
  ℕ, ◌≡◌, refl, ap, ◌∙◌, inl, inr, String, none, some, List, [], ◌∷◌, map, lookup, insert,
  lookup-insert_self, Option-cases, arith,
}
use mo_vm.Error.{Outcome, ok, err, panic}
use mo_vm.Vcpu.{Vcpu, Regs, Sregs, Fpu}
use mo_vm.Snapshot.{VmState}
use mo_vm.Snapshot.Restore.{
  AllWork, copied, state_of, states_of, save_vcpu_states-states_of, restore_vcpu_states-copied,
}
use mo_vm.Snapshot.Format.{IsFaithful, IsPositional}
use mo_vm.Snapshot.Serial.{Layout}
use mo_vm.Snapshot.Serial.States.{serialize_vm, deserialize_vm}
use mo_vm.Snapshot.RoundTrip.States.{unreserved_vm, deserialize_vm-positional}
use mo_vm.Snapshot.RoundTrip.Vcpus.{unreserved_vcpu}
use mo_vm.Snapshot.Memory.{Mapping, restore_memory}
use mo_vm.Snapshot.Memory.Saved.{saved_of, save_memory-saved_of}
use mo_vm.Snapshot.Memory.Restored.{IsLaidOut, SameLayout, restore_memory-above}
use mo_vm.Snapshot.Manager.{
  Encoding, Answers, create_snapshot, with_vcpus, restored, restore_snapshot, write_file, saved,
  save_to_file, read_file, loaded, load_from_file,
}

module _ (M : Mapping) (decimal strerror : ℕ → String) where
  -- The state that a snapshot of a working machine is.
  abbrev pub snapshot_of : List M.Region → List Vcpu → VmState
  snapshot_of rs vs = record {
    memory_regions = map (saved_of M) rs;
    vcpu_states = states_of vs;
    device_states = [];
  }

  create_snapshot-snapshot_of :
      (rs : List M.Region) (vs : List Vcpu)
      → AllWork vs
      → create_snapshot M decimal strerror (rs, vs) ≡ ok (snapshot_of rs vs)
  unfolding create_snapshot
  create_snapshot-snapshot_of rs vs works =
      rw (save_memory-saved_of M rs, save_vcpu_states-states_of strerror vs works) refl

  unreserved-states_of : (vs : List Vcpu) → map unreserved_vcpu (states_of vs) ≡ states_of vs
  unreserved-states_of [] = refl
  unreserved-states_of (v ∷ vs) = ap (◌∷◌ (state_of v)) (unreserved-states_of vs)

  unreserved_snapshot :
      (rs : List M.Region) (vs : List Vcpu) → unreserved_vm (snapshot_of rs vs) ≡ snapshot_of rs vs
  unreserved_snapshot rs vs =
      ap (λ states. record (snapshot_of rs vs) { vcpu_states = states }) (unreserved-states_of vs)

  restore_snapshot-snapshot_of :
      (rs ws ws' : List M.Region) (vs us : List Vcpu)
      → AllWork us
      → restore_memory M decimal (map (saved_of M) rs) ws ≡ (ws', ok tt)
      → restore_snapshot M decimal strerror (snapshot_of rs vs) (ws, us)
        ≡ ((ws', copied vs us), ok tt)
  unfolding restore_snapshot restored with_vcpus
  restore_snapshot-snapshot_of rs ws ws' vs us works e =
      ap (restored M decimal strerror (snapshot_of rs vs) us) e
      ∙ ap (with_vcpus M decimal strerror ws') (restore_vcpu_states-copied strerror vs us works)

  -- A snapshot can be created of working vCPUs and of a memory whose regions, none of them empty,
  -- stand one after the other below 2^64, and restoring it into any working vCPUs and any memory with
  -- regions at the same places succeeds. The memory then holds the bytes of the first, and the vCPUs,
  -- one by one as far as both lists go, its general, segment and FPU registers; nothing else of them
  -- changes, so MSRs are not brought back.
  pub restore_snapshot-create_snapshot :
      (from : ℕ) (rs ws : List M.Region) (vs us : List Vcpu)
      → IsLaidOut M from rs
      → SameLayout M rs ws
      → AllWork vs
      → AllWork us
      → (state : VmState) × (create_snapshot M decimal strerror (rs, vs) ≡ ok state)
        × (ws' : List M.Region) × (restore_snapshot M decimal strerror state (ws, us)
            ≡ ((ws', copied vs us), ok tt))
        × SameLayout M rs ws'
        × (map M.contents ws' ≡ map M.contents rs)
  restore_snapshot-create_snapshot from rs ws vs us laid same works works' =
      let (ws', restores, (layout, bytes)) =
        restore_memory-above M decimal from rs ws [] laid same tt in
      (
        snapshot_of rs vs,
        create_snapshot-snapshot_of rs vs works,
        ws',
        restore_snapshot-snapshot_of rs ws ws' vs us works' restores,
        layout,
        bytes,
      )

  module _ (B : Encoding) (regs_layout : Layout Regs) (sregs_layout : Layout Sregs)
      (fpu_layout : Layout Fpu) (host : Answers) where
    abbrev serialized : VmState → Outcome B.format.Value
    serialized state = serialize_vm B.format regs_layout sregs_layout fpu_layout state

    abbrev write :
        String → VmState → List (String × B.Bytes) → List (String × B.Bytes) × Outcome (Unit {0})
    write = write_file M decimal strerror B regs_layout sregs_layout fpu_layout host

    abbrev read : String → List (String × B.Bytes) → Outcome VmState
    read = read_file M decimal strerror B regs_layout sregs_layout fpu_layout host

    abbrev save :
        String
        → List M.Region × List Vcpu
        → List (String × B.Bytes)
        → List (String × B.Bytes) × Outcome (Unit {0})
    save = save_to_file M decimal strerror B regs_layout sregs_layout fpu_layout host

    abbrev load :
        String
        → List (String × B.Bytes)
        → List M.Region × List Vcpu
        → (List M.Region × List Vcpu) × Outcome (Unit {0})
    load = load_from_file M decimal strerror B regs_layout sregs_layout fpu_layout host

    write_file-ok :
        (path : String) (state : VmState) (files : List (String × B.Bytes))
        → (write path state files).1 ≡ ok tt
        → ((B.serialize_into (serialized state)).1 ≡ ok tt)
          × ((write path state files).0 ≡ insert path (B.serialize_into (serialized state)).0 files)
    unfolding write_file
    write_file-ok path state files e = elim (Option-cases (host.create path)) [
      | inr (x, refused) ↦ absurd (ground arith)
      | inl created ↦ (ground arith, rw (created, write_file) refl)
    ]

    read_file-lookup :
        (path : String) (files : List (String × B.Bytes)) (bytes : B.Bytes) (v : B.format.Value)
        → host.open_file path ≡ none
        → lookup files path ≡ some bytes
        → B.deserialize_from bytes ≡ ok v
        → read path files ≡ deserialize_vm B.format regs_layout sregs_layout fpu_layout v
    unfolding read_file
    read_file-lookup path files bytes v opens found back = rw (read_file, opens, found, back) refl

    -- A file that was written reads back as what its format makes of the state.
    read_file-write_file :
        (path : String) (state : VmState) (files : List (String × B.Bytes))
        → host.open_file path ≡ none
        → (write path state files).1 ≡ ok tt
        → (v : B.format.Value) × (serialized state ≡ ok v)
          × (read path (write path state files).0
              ≡ deserialize_vm B.format regs_layout sregs_layout fpu_layout v)
    read_file-write_file path state files opens e =
        let (done, table) = write_file-ok path state files e in
        let (v, made, back) = B.written (serialized state) done in
        (
          v,
          made,
          ap (read path) table
              ∙ read_file-lookup path _ (B.serialize_into (serialized state)).0 v opens
                  (lookup-insert_self path (B.serialize_into (serialized state)).0 files) back,
        )

    saved-ok :
        (path : String) (r : Outcome VmState) (files : List (String × B.Bytes))
        → (saved M decimal strerror B regs_layout sregs_layout fpu_layout host path r files).1
          ≡ ok tt
        → (state : VmState) × (r ≡ ok state)
          × ((write path state files).1 ≡ ok tt)
          × ((saved M decimal strerror B regs_layout sregs_layout fpu_layout host path r files).0
              ≡ (write path state files).0)
    unfolding saved
    saved-ok path (ok state) files e = (state, refl, e, refl)
    saved-ok path (err x) files e = absurd (ground arith)
    saved-ok path panic files e = absurd (ground arith)

    -- What a saved file is read as.
    read_file-save_to_file :
        (path : String) (reach : List M.Region × List Vcpu) (files : List (String × B.Bytes))
        → host.open_file path ≡ none
        → (save path reach files).1 ≡ ok tt
        → (state : VmState) × (create_snapshot M decimal strerror reach ≡ ok state)
          × (v : B.format.Value) × (serialized state ≡ ok v)
          × (read path (save path reach files).0
              ≡ deserialize_vm B.format regs_layout sregs_layout fpu_layout v)
    unfolding save_to_file
    read_file-save_to_file path reach files opens e =
        let (state, taken, wrote, same) =
          saved-ok path (create_snapshot M decimal strerror reach) files e in
        let (v, made, back) = read_file-write_file path state files opens wrote in
        (state, taken, v, made, ap (read path) same ∙ back)

    -- A working machine is saved if its state can be serialized and written.
    pub save_to_file-ok :
        (path : String) (rs : List M.Region) (vs : List Vcpu) (files : List (String × B.Bytes))
        → AllWork vs
        → host.create path ≡ none
        → (B.serialize_into (serialized (snapshot_of rs vs))).1 ≡ ok tt
        → (save path (rs, vs) files).1 ≡ ok tt
    unfolding save_to_file saved write_file
    save_to_file-ok path rs vs files works created wrote =
        rw (create_snapshot-snapshot_of rs vs works, saved, write_file, created) wrote

    -- In a format that gives structures as sequences, as bincode does: whatever was saved to a file
    -- that can be opened, loading it fails with the error of the first visitor, and changes no memory
    -- and no vCPU.
    pub load_from_file-positional :
        (L : IsFaithful B.format)
        → IsPositional B.format L
        → (path : String) (reach reach' : List M.Region × List Vcpu)
          (files : List (String × B.Bytes))
        → host.open_file path ≡ none
        → (save path reach files).1 ≡ ok tt
        → load path (save path reach files).0 reach'
          ≡ (reach', err (B.format.unexpected_seq "struct VmState"))
    unfolding load_from_file loaded
    load_from_file-positional L N path reach reach' files opens e =
        let (state, taken, v, made, back) = read_file-save_to_file path reach files opens e in
        rw
          (
            back,
            deserialize_vm-positional regs_layout sregs_layout fpu_layout B.format L N state v made,
            loaded,
          )
          refl

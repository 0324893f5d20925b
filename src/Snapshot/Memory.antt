-- ===== src/Snapshot/Memory.antt =====
-- rust-hypervisor/src/snapshot.rs: the memory of a snapshot, saved region by region and written back. The regions of
-- a `GuestMemoryMmap`, which is not part of the repository, are an interface with the laws that the
-- program relies on.
pub mod Plain
pub mod Saved
pub mod Restored
pub mod Places
use Prim.Native.String.{◌++◌ as append}
use mo_vm.Common.{
  ℕ, suc, ◌+◌, ◌-◌, ◌*◌, ◌%◌, ◌^◌, ◌≤◌, ◌<◌, ◌≡◌, ◌≢◌, ◌||◌, String, Option, none, some, List, [],
  ◌∷◌, ◌++◌, length, take, drop, splice, zeroed, chunks, hex, ltb, if◌then◌else◌,
}
use mo_vm.Error.{HypervisorError, memory_error, check, Outcome, ok, err, panic}
use mo_vm.Error.Try.{◌>>=◌, ◌>>◌, traverse}
use mo_vm.Error.Action.{Action, after}
use mo_vm.Snapshot.{MemoryRegion}

pub record Mapping : Type 1 where
  pub Region : Type 0
  pub start_addr : Region → ℕ
  pub len : Region → ℕ
  pub contents : Region → List ℕ
  pub length-contents : (r : Region) → length (contents r) ≡ len r
  -- `read_slice` and `write_slice` of a region, by offsets into it.
  pub read_slice : Region → List ℕ → ℕ → List ℕ × Option String
  pub write_slice : Region → List ℕ → ℕ → Region × Option String
  -- `find_region`: the region with the address, between those before and after it.
  pub find_region : List Region → ℕ → Option (List Region × Region × List Region)
  pub read_inside :
      (r : Region) (buf : List ℕ) (offset : ℕ)
      → offset + length buf ≤ len r
      → 0 < length buf
      → read_slice r buf offset ≡ (take (length buf) (drop offset (contents r)), none)
  pub write_inside :
      (r : Region) (bs : List ℕ) (offset : ℕ)
      → offset + length bs ≤ len r
      → 0 < length bs
      → ((write_slice r bs offset).1 ≡ none)
        × (contents (write_slice r bs offset).0 ≡ splice (contents r) offset bs)
  -- A write leaves a region in its place, whatever it answers.
  pub write_place :
      (r : Region) (bs : List ℕ) (offset : ℕ)
      → (start_addr (write_slice r bs offset).0 ≡ start_addr r)
        × (len (write_slice r bs offset).0 ≡ len r)
  pub find_some :
      (rs before : List Region) (r : Region) (behind : List Region) (a : ℕ)
      → find_region rs a ≡ some (before, r, behind)
      → (rs ≡ before ++ (r ∷ behind)) × (start_addr r ≤ a) × (a < start_addr r + len r)
  pub find_none :
      (before : List Region) (r : Region) (behind : List Region) (a : ℕ)
      → start_addr r ≤ a
      → a < start_addr r + len r
      → find_region (before ++ (r ∷ behind)) a ≢ none

module _ (M : Mapping) where
  pub failed_at : String → ℕ → String → HypervisorError
  failed_at what a e = memory_error (append (append what (hex a)) (append ": " e))

  -- The chunks of the buffer from number `i` on.
  unfoldable pub read_chunks : M.Region → ℕ → List (List ℕ) → Outcome (List ℕ)
  read_chunks r i [] = ok []
  read_chunks r i (chunk ∷ chunks) =
      let (bytes, e) = M.read_slice r chunk (i * 4096) in
      let rest = read_chunks r (suc i) chunks in
      check e (failed_at "Failed to read memory at 0x" (i * 4096)) >> rest >>= λ rest.
      ok (bytes ++ rest)

  unfoldable pub save_region : M.Region → Outcome MemoryRegion
  save_region r = do
    bytes ← read_chunks r 0 (chunks (zeroed (M.len r)))
    ok (record { guest_addr = M.start_addr r; size = M.len r; bytes = bytes })

  unfoldable pub save_memory : List M.Region → Outcome (List MemoryRegion)
  save_memory memory = traverse save_region memory

  unfoldable pub write_chunks : ℕ → ℕ → ℕ → List (List ℕ) → M.Region → M.Region × Outcome (Unit {0})
  write_chunks guest_addr region_offset i [] r = (r, ok tt)
  write_chunks guest_addr region_offset i (chunk ∷ chunks) r =
      let (r', e) = M.write_slice r chunk ((region_offset + i * 4096) % 2 ^ 64) in
      after
        (r', check e (failed_at "Failed to write memory at 0x" ((guest_addr + i * 4096) % 2 ^ 64)))
        λ _. write_chunks guest_addr region_offset (suc i) chunks

  -- `start.checked_add(size)`
  abbrev checked_end : ℕ → ℕ → String → Outcome ℕ
  checked_end start size overflow =
      if ltb (start + size) (2 ^ 64) then ok (start + size) else err (memory_error overflow)

  in_place :
      List M.Region
      → List M.Region
      → M.Region × Outcome (Unit {0})
      → List M.Region × Outcome (Unit {0})
  in_place before behind (r, outcome) = (before ++ (r ∷ behind), outcome)

  onto : Outcome (Unit {0}) → MemoryRegion → M.Region → M.Region × Outcome (Unit {0})
  onto (ok _) saved r =
      write_chunks saved.guest_addr (saved.guest_addr - M.start_addr r) 0 (chunks saved.bytes) r
  onto (err e) saved r = (r, err e)
  onto panic saved r = (r, panic)

  -- `decimal` prints a number.
  module _ (decimal : ℕ → String) where
    pub unfit : String → ℕ → String
    unfit addr size =
        append (append "Memory region 0x" addr)
          (append " size " (append (decimal size) " doesn't fit in guest memory"))

    -- The tests on a saved region and on the region of memory it belongs to.
    unfoldable pub fits_region : MemoryRegion → M.Region → Outcome (Unit {0})
    fits_region saved r = do
      region_end ← checked_end (M.start_addr r) (M.len r) "Region end overflow"
      saved_end ← checked_end saved.guest_addr saved.size "Memory region end overflow"
      if ltb saved.guest_addr (M.start_addr r) || ltb region_end saved_end
          then err (memory_error (unfit (hex saved.guest_addr) saved.size))
          else ok tt

    unfoldable pub restore_region : MemoryRegion → Action (List M.Region) (Unit {0})
    unfolding in_place onto
    restore_region saved memory = elim (M.find_region memory saved.guest_addr) [
      | none ↦ (
        memory,
        err (
            memory_error
              (append "No memory region found for guest address 0x" (hex saved.guest_addr))),
      )
      | some (before, r, behind) ↦ in_place before behind (onto (fits_region saved r) saved r)
    ]

    unfoldable pub restore_memory : List MemoryRegion → Action (List M.Region) (Unit {0})
    restore_memory [] memory = (memory, ok tt)
    restore_memory (saved ∷ regions) memory =
        after (restore_region saved memory) λ _. restore_memory regions

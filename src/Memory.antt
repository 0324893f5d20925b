-- ===== src/Memory.antt =====
-- rust-hypervisor/src/memory.rs: the layout of guest memory and its registration with KVM. The size is
-- an argument, since the source asks to edit the constant; `memory_size` is its value. The host mapping
-- of a range and KVM's answer to a slot are arguments.
pub mod Layout
mod Tests
use mo_vm.Common.{
  ℕ, suc, ◌+◌, ◌-◌, ◌*◌, ◌^◌, min, String, Option, none, some, List, [], ◌∷◌, ◌++◌, ltb,
  if◌then◌else◌,
}
use mo_vm.Error.{kvm_error, memory_error, Outcome, ok, err, panic}
use mo_vm.Error.Action.{Action, return, ◌>>◌}

abbrev pub memory_size : ℕ
memory_size = 128 * 1024 * 1024

-- `768 << 21`
abbrev pub gap_size : ℕ
gap_size = 768 * 2 ^ 21

abbrev pub gap_start : ℕ
gap_start = 0x100000000

-- The ranges that the memory is made of: where each starts, and its size.
unfoldable pub ranges : ℕ → List (ℕ × ℕ)
ranges size =
    let low_mem_size : ℕ = min gap_start size in
    if ltb gap_start size
    then (0, low_mem_size) ∷ (gap_start + gap_size, size - gap_start) ∷ []
    else (0, low_mem_size) ∷ []

pub record GuestMemoryRegions (M : Type 0) : Type 0 where
  pub memory : M
  pub low_mem_size : ℕ

pub data Mapped (M : Type 0) : Type 0 where
  mapped : M → Mapped M
  unmapped : String → Mapped M

-- `from_ranges` maps host memory.
unfoldable pub new : {M : Type 0} → (List (ℕ × ℕ) → Mapped M) → ℕ → Outcome (GuestMemoryRegions M)
new from_ranges size = elim (from_ranges (ranges size)) [
  | mapped memory ↦ ok (record { memory = memory; low_mem_size = min gap_start size })
  | unmapped e ↦ err (memory_error e)
]

-- A mapped region, as iterating over the memory gives it.
pub record Region : Type 0 where
  pub start_addr : ℕ
  pub len : ℕ
  pub host_addr : ℕ

-- `kvm_userspace_memory_region`
pub record MemorySlot : Type 0 where
  pub slot : ℕ
  pub flags : ℕ
  pub guest_phys_addr : ℕ
  pub slot_size : ℕ
  pub userspace_addr : ℕ

abbrev pub slot_of : ℕ → Region → MemorySlot
slot_of slot region = record {
  slot = slot;
  flags = 0;
  guest_phys_addr = region.start_addr;
  slot_size = region.len;
  userspace_addr = region.host_addr;
}

-- The slots that KVM has taken; `refuses` is its answer to one more.
module _ (refuses : MemorySlot → Option ℕ) where
  unfoldable pub set_user_memory_region : MemorySlot → Action (List MemorySlot) (Unit {0})
  set_user_memory_region mem_region slots = elim (refuses mem_region) [
    | some errno ↦ (slots, err (kvm_error errno))
    | none ↦ (slots ++ (mem_region ∷ []), ok tt)
  ]

  -- `for (slot, region) in self.memory.iter().enumerate()`, from a slot number on.
  unfoldable pub setup_memory_region : ℕ → List Region → Action (List MemorySlot) (Unit {0})
  setup_memory_region slot [] = return tt
  setup_memory_region slot (region ∷ regions) =
      set_user_memory_region (slot_of slot region) >> setup_memory_region (suc slot) regions

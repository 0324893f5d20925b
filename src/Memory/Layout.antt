-- ===== src/Memory/Layout.antt =====
-- Which addresses the layout backs, and what KVM is told.
use mathlib.Core.List.{append_assoc, append-nil}
use mo_vm.Common.{
  ℕ, suc, ◌+◌, ◌≤◌, ◌<◌, ◌≡◌, sym, ap, ◌∙◌, ◌⊎◌, ◌↔◌, Option, none, List, [], ◌∷◌, ◌++◌, arith, ltb,
  leb, ◌&&◌, ◌||◌, Bool, true, false,
}
use mo_vm.Error.{ok}
use mo_vm.Memory.{
  ranges, gap_start, gap_size, Region, MemorySlot, slot_of, set_user_memory_region,
  setup_memory_region,
}

-- The address lies in one of the ranges.
abbrev pub covers : List (ℕ × ℕ) → ℕ → Bool
covers [] a = false
covers ((start, len) ∷ rs) a = (leb start a && ltb a (start + len)) || covers rs a

abbrev pub total : List (ℕ × ℕ) → ℕ
total [] = 0
total ((start, len) ∷ rs) = len + total rs

-- For a memory of any size the ranges hold exactly that many bytes, leave the gap from 4 GB to 5.5 GB
-- free, and put every other address of the memory where an offset below 4 GB stays and a higher one
-- moves up by the gap.
pub ranges-covers :
    (size a : ℕ)
    → (total (ranges size) ≡ size)
      × ((covers (ranges size) a ≡ true)
          ↔ (((a < gap_start) × (a < size)) ⊎ ((gap_start + gap_size ≤ a) × (a < size + gap_size))))
unfolding ranges
ranges-covers size a = ground arith

-- The slots of regions, numbered from `slot` on.
abbrev pub slots_of : ℕ → List Region → List MemorySlot
slots_of slot [] = []
slots_of slot (region ∷ regions) = slot_of slot region ∷ slots_of (suc slot) regions

-- If KVM takes every slot, the registration succeeds, and KVM has one slot for each region, numbered in
-- order, with the region's guest address, size and host address.
pub setup_memory_region-slots_of :
    (refuses : MemorySlot → Option ℕ) (slot : ℕ) (regions : List Region) (slots : List MemorySlot)
    → ((mem_region : MemorySlot) → refuses mem_region ≡ none)
    → setup_memory_region refuses slot regions slots ≡ (slots ++ slots_of slot regions, ok tt)
unfolding setup_memory_region set_user_memory_region
setup_memory_region-slots_of refuses slot [] slots takes =
    ap (λ l. (l, ok tt)) (sym (append-nil slots))
setup_memory_region-slots_of refuses slot (region ∷ regions) slots takes =
    rw (takes (slot_of slot region), setup_memory_region, set_user_memory_region)
      (setup_memory_region-slots_of refuses (suc slot) regions (slots ++ (slot_of slot region ∷ []))
          takes
        ∙ ap (λ l. (l, ok tt))
            (append_assoc slots (slot_of slot region ∷ []) (slots_of (suc slot) regions)))

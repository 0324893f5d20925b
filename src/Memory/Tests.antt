-- ===== src/Memory/Tests.antt =====
-- A memory of 6 GB, which has two ranges.
use mo_vm.Common.{ℕ, ◌+◌, ◌*◌, ◌^◌, ◌<◌, ◌≤◌, ◌≡◌, ◌⊎◌, ◌↔◌, true}
use mo_vm.Memory.{ranges, gap_start, gap_size, Region}
use mo_vm.Memory.Layout.{covers, total, ranges-covers}

abbrev six_gb : ℕ
six_gb = 6 * 2 ^ 30

abbrev address : ℕ
address = 0x180000000

ranges-covers_example :
    (total (ranges six_gb) ≡ six_gb)
    × ((covers (ranges six_gb) address ≡ true) ↔ (
        ((address < gap_start) × (address < six_gb))
        ⊎ ((gap_start + gap_size ≤ address) × (address < six_gb + gap_size))))
ranges-covers_example = ranges-covers six_gb address

abbrev low : Region
low = record { start_addr = 0; len = 0x8000000; host_addr = 0x7f0000000000 }

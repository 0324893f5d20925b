-- ===== src/KernelLoader/Paging.antt =====
-- How an x86-64 processor translates an address through four levels of tables in guest memory: the
-- architecture's rule, stated apart from the code that writes the tables.
use mo_vm.Common.{
  ℕ, ◌+◌, ◌*◌, ◌/◌, ◌%◌, ◌^◌, ◌≤◌, ◌<◌, ◌≡◌, refl, ◌∙◌, ap, false, true, Option, none, some, ltb,
  ◌==◌, if◌then◌else◌, arith,
}
use mo_vm.GuestMemory.{Image}
use mo_vm.GuestMemory.Image.{read_u64}

abbrev pub entry : Image → ℕ → ℕ → Option ℕ
entry f table index = read_u64 f (table + index * 8)

-- Bits 12 to 51 of an entry.
abbrev pub frame : ℕ → ℕ
frame e = e / 2 ^ 12 % 2 ^ 40 * 2 ^ 12

-- The page of `2 ^ bits` bytes that a leaf entry names, and the offset in it.
abbrev pub leaf : ℕ → ℕ → ℕ → ℕ
leaf size e va = e / size % (2 ^ 52 / size) * size + va % size

-- Goes on with an entry that is there and present.
abbrev pub if_present : Option ℕ → (ℕ → Option ℕ) → Option ℕ
if_present none k = none
if_present (some e) k = if e % 2 == 0 then none else k e

abbrev pub is_large : ℕ → ℕ
is_large e = e / 2 ^ 7 % 2

-- The physical address, or `none` for a page fault.
unfoldable pub translate : Image → ℕ → ℕ → Option ℕ
translate f cr3 va = if_present (entry f cr3 (va / 2 ^ 39 % 512)) λ e4.
    if_present (entry f (frame e4) (va / 2 ^ 30 % 512)) λ e3.
      if is_large e3 == 1
      then some (leaf (2 ^ 30) e3 va)
      else if_present (entry f (frame e3) (va / 2 ^ 21 % 512)) λ e2.
        if is_large e2 == 1
        then some (leaf (2 ^ 21) e2 va)
        else if_present (entry f (frame e2) (va / 2 ^ 12 % 512)) λ e1. some (leaf (2 ^ 12) e1 va)

-- The entries of tables at `base` that map the first 4 GB to themselves by pages of 2 MB.
pub record IsIdentityMap (base : ℕ) (f : Image) : Type 0 where
  pub root : entry f base 0 ≡ some (base + 0x1003)
  pub no_root : (i : ℕ) → 1 ≤ i → i < 512 → entry f base i ≡ some 0
  pub directory : (i : ℕ) → i < 4 → entry f (base + 0x1000) i ≡ some (base + 0x2003 + i * 0x1000)
  pub no_directory : (i : ℕ) → 4 ≤ i → i < 512 → entry f (base + 0x1000) i ≡ some 0
  pub page : (i : ℕ) → i < 2048 → entry f (base + 0x2000) i ≡ some (i * 0x200000 + 0x83)

module _ (f : Image) (va : ℕ) (t : IsIdentityMap 0x9000 f) where
  translate_above_root : va < 2 ^ 48 → 2 ^ 39 ≤ va → translate f 0x9000 va ≡ none
  unfolding translate
  translate_above_root h low = rw (t.no_root (va / 2 ^ 39 % 512) (omega arith) (omega arith)) refl

  translate_above : va < 2 ^ 39 → 2 ^ 32 ≤ va → translate f 0x9000 va ≡ none
  unfolding translate
  translate_above h low =
      let i4 : va / 2 ^ 39 % 512 ≡ 0 = omega arith in
      rw (i4, t.root, t.no_directory (va / 2 ^ 30 % 512) (omega arith) (omega arith)) refl

  abbrev directory_entry : ℕ
  directory_entry = 0xb003 + va / 2 ^ 30 % 512 * 0x1000

  abbrev page_entry : ℕ
  page_entry = va / 2 ^ 21 * 0x200000 + 0x83

  page_entry_read :
      va < 2 ^ 32 → entry f (frame directory_entry) (va / 2 ^ 21 % 512) ≡ some page_entry
  page_entry_read h = ap (read_u64 f) (omega arith) ∙ t.page (va / 2 ^ 21) (omega arith)

  directory_is_table :
      va < 2 ^ 32 → ((directory_entry % 2 == 0) ≡ false) × ((is_large directory_entry == 1) ≡ false)
  directory_is_table h = (ground arith, ground arith)

  page_is_leaf :
      va < 2 ^ 32
      → ((page_entry % 2 == 0) ≡ false)
        × ((is_large page_entry == 1) ≡ true)
        × (leaf (2 ^ 21) page_entry va ≡ va)
  page_is_leaf h = (ground arith, ground arith, omega arith)

  translate_low : va < 2 ^ 32 → translate f 0x9000 va ≡ some va
  unfolding translate
  translate_low h =
      let i4 : va / 2 ^ 39 % 512 ≡ 0 = omega arith in
      rw (
        i4,
        t.root,
        t.directory (va / 2 ^ 30 % 512) (omega arith),
        (directory_is_table h).0,
        (directory_is_table h).1,
        page_entry_read h,
        (page_is_leaf h).0,
        (page_is_leaf h).1,
        (page_is_leaf h).2,
      )

-- Through such tables every address below 4 GB is itself, and every other one faults.
pub translate-IsIdentityMap :
    (f : Image) (va : ℕ)
    → IsIdentityMap 0x9000 f
    → va < 2 ^ 48
    → translate f 0x9000 va ≡ (if ltb va (2 ^ 32) then some va else none)
translate-IsIdentityMap f va t h =
    ground (arith, translate_low f va t, translate_above f va t, translate_above_root f va t h)

-- ===== src/KernelLoader.antt =====
-- rust-hypervisor/src/kernel_loader.rs: the kernel's segments, the page tables, the command line
-- and the boot parameters are written into guest memory. The file's content and `goblin`'s parse
-- of it are arguments. Texts written into memory are their UTF-8 bytes, and arithmetic on `u64` and
-- `usize` wraps, as in the release build that the README builds.
pub mod Paging
pub mod PageTables
pub mod Segments
pub mod BootParams
pub mod Load
mod Tests
use Prim.Native.String.{◌++◌ as append}
use mo_vm.Common.{
  ℕ, zero, suc, ◌+◌, ◌-◌, ◌*◌, ◌%◌, ◌^◌, Option, none, some, List, [], ◌∷◌, ◌++◌, ltb, ◌==◌,
  if◌then◌else◌, length, take, drop, splice, to_le_bytes, bit_or, zeroed, hex,
}
use mo_vm.Error.{memory_error, Outcome, ok, err, panic}
use mo_vm.Error.Action.{Action, return, fail, ◌>>◌}
use mo_vm.GuestMemory.{GuestMemory, write}

pub record KernelLoader : Type 0 where
  pub entry_point : ℕ
  pub cmdline : List ℕ

unfoldable pub new : KernelLoader
new = record { entry_point = 0; cmdline = [] }

-- The fields of `goblin`'s `ProgramHeader` and `Elf` that the loader reads.
pub record ProgramHeader : Type 0 where
  pub p_type : ℕ
  pub p_offset : ℕ
  pub p_paddr : ℕ
  pub p_filesz : ℕ

pub record Elf : Type 0 where
  pub program_headers : List ProgramHeader
  pub entry : ℕ

-- `goblin::elf::program_header::PT_LOAD`
abbrev pub pt_load : ℕ
pt_load = 1

abbrev pub page_table_base : ℕ
page_table_base = 0x9000

abbrev pub pdpte_addr : ℕ
pdpte_addr = page_table_base + 0x1000

abbrev pub pde_addr : ℕ
pde_addr = page_table_base + 0x2000

abbrev pub cmdline_addr : ℕ
cmdline_addr = 0x10000

abbrev pub boot_params_addr : ℕ
boot_params_addr = 0x7000

-- The zeroed page with the fields that the loader sets.
unfoldable pub boot_params : List ℕ
boot_params =
    let p : List ℕ = splice (zeroed 4096) 0x210 (0xff ∷ []) in
    let p : List ℕ = splice p 0x228 (to_le_bytes 4 (cmdline_addr % 2 ^ 32)) in
    let p : List ℕ = splice p 0x1e8 (1 ∷ []) in
    let p : List ℕ = splice p 0x2d0 (to_le_bytes 8 0) in
    let p : List ℕ = splice p 0x2d8 (to_le_bytes 8 0x8000000) in splice p 0x2e0 (to_le_bytes 4 1)

module _ (G : GuestMemory) where
  -- One PT_LOAD segment. A slice whose start lies behind its end panics.
  unfoldable pub load_segment : List ℕ → ProgramHeader → Action G.Mem (Unit {0})
  load_segment buffer phdr =
      let file_end = (phdr.p_offset + phdr.p_filesz) % 2 ^ 64 in
      if ltb (length buffer) file_end
      then fail (memory_error "Invalid ELF segment: extends past end of file")
      else if ltb file_end phdr.p_offset
      then (λ m. (m, panic))
      else write G (take (file_end - phdr.p_offset) (drop phdr.p_offset buffer)) phdr.p_paddr λ e.
        memory_error (
          append "Failed to write kernel segment at 0x" (append (hex phdr.p_paddr) (append ": " e)))

  unfoldable pub load_segments : List ℕ → List ProgramHeader → Action G.Mem (Unit {0})
  load_segments buffer [] = return tt
  load_segments buffer (phdr ∷ phdrs) =
      let rest = load_segments buffer phdrs in
      if phdr.p_type == pt_load then load_segment buffer phdr >> rest else rest

  -- `for i in 0..4`, with the rounds left and `i`.
  unfoldable pub write_pdptes : ℕ → ℕ → Action G.Mem (Unit {0})
  write_pdptes zero i = return tt
  write_pdptes (suc n) i =
      write G (to_le_bytes 8 (bit_or (pde_addr + i * 0x1000) 0x3)) (pdpte_addr + i * 8)
        (λ _. memory_error "PDPTE write failed")
      >> write_pdptes n (suc i)

  -- `for i in 0..2048`
  unfoldable pub write_pdes : ℕ → ℕ → Action G.Mem (Unit {0})
  write_pdes zero i = return tt
  write_pdes (suc n) i =
      write G (to_le_bytes 8 (bit_or (i * 0x200000) 0x83)) (pde_addr + i * 8)
        (λ _. memory_error "PDE write failed")
      >> write_pdes n (suc i)

  unfoldable pub write_page_tables : Action G.Mem (Unit {0})
  write_page_tables = do
    write G (zeroed 0x6000) page_table_base (λ _. memory_error "Failed to zero page tables")
    write G (to_le_bytes 8 (bit_or pdpte_addr 0x3)) page_table_base
        (λ _. memory_error "PML4 write failed")
    write_pdptes 4 0
    write_pdes 2048 0

  unfoldable pub write_boot_params : List ℕ → Action G.Mem (Unit {0})
  write_boot_params cmdline = do
    write G (cmdline ++ (0 ∷ [])) cmdline_addr (λ _. memory_error "Failed to write cmdline")
    write G boot_params boot_params_addr (λ _. memory_error "Failed to write boot params")

  -- The bytes at the entry point are read for the log, and `unwrap` panics where none are.
  unfoldable pub read_entry : ℕ → Action G.Mem (Unit {0})
  read_entry entry_point m = elim (G.read_slice m (zeroed 16) entry_point).1 [
    | none ↦ (m, ok tt)
    | some e ↦ (m, panic)
  ]

  -- What happens after the loader's own fields are set.
  unfoldable pub finish : List ℕ → ℕ → Action G.Mem (Unit {0})
  finish cmdline entry_point = do
    write_page_tables
    write_boot_params cmdline
    read_entry entry_point

  enter :
      KernelLoader
      → Elf
      → List ℕ
      → G.Mem × Outcome (Unit {0})
      → KernelLoader × G.Mem × Outcome (Unit {0})
  enter self elf cmdline (m, ok _) =
      let (m', r) = finish cmdline elf.entry m in
      (record { entry_point = elf.entry; cmdline = cmdline }, m', r)
  enter self elf cmdline (m, err e) = (self, m, err e)
  enter self elf cmdline (m, panic) = (self, m, panic)

  -- `file` is what opening and reading the path gives, `parse` is `Elf::parse`.
  unfoldable pub load_kernel :
      (List ℕ → Option Elf)
      → KernelLoader
      → Outcome (List ℕ)
      → List ℕ
      → G.Mem
      → KernelLoader × G.Mem × Outcome (Unit {0})
  unfolding enter
  load_kernel parse self (err e) cmdline m = (self, m, err e)
  load_kernel parse self panic cmdline m = (self, m, panic)
  load_kernel parse self (ok buffer) cmdline m = elim (parse buffer) [
    | none ↦ (self, m, err (memory_error "Invalid ELF format"))
    | some elf ↦ enter self elf cmdline (load_segments buffer elf.program_headers m)
  ]

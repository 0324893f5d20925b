-- ===== src/KernelLoader/Load.antt =====
-- `load_kernel` as a whole: when it succeeds and what it leaves, and how it fails.
pub mod Loaded
use mo_vm.Common.{
  Option-cases, get_elem?-ne-none, ℕ, ◌+◌, ◌*◌, ◌^◌, ◌≤◌, ◌<◌, ◌≡◌, sym, ◌∙◌, ◌⊎◌, inl, inr, ap,
  Option, some, none, List, [], ◌∷◌, ◌++◌, length, take, drop, to_le_bytes, ltb, if◌then◌else◌,
  zeroed, length-zeroed, arith,
}
use mo_vm.Error.{memory_error, ok, err, panic}
use mo_vm.Error.Action.{Runs, Runs-then, ◌>>◌, after, after_assoc}
use mo_vm.GuestMemory.{GuestMemory, Image, IsBacked}
use mo_vm.GuestMemory.Image.{IsBacked-within, read_u64, read_u64_cong, bytes_at, bytes_at_cong}
use mo_vm.KernelLoader.{
  KernelLoader, ProgramHeader, Elf, pt_load, write_page_tables, write_boot_params, read_entry,
  finish, enter, load_kernel,
}
use mo_vm.KernelLoader.Paging.{translate, IsIdentityMap, translate-IsIdentityMap}
use mo_vm.KernelLoader.PageTables.{
  tables_image, tables_image-IsIdentityMap, tables_image_apart, write_page_tables-Runs,
}
use mo_vm.KernelLoader.Segments.{
  segments_image, AllLoadable, AllApart, load_segments-Runs, load_segments-append,
  load_segments-past_end, segments_image_above, segments_image-segment,
}
use mo_vm.KernelLoader.BootParams.{
  boot_image, boot_image_apart, boot_image-cmdline, boot_image-field, boot_params-IsBootParams,
  write_boot_params-Runs,
}
use mo_vm.KernelLoader.Load.Loaded.{
  loaded_image, CanLoad, read_entry-panic, load_kernel-writes, load_kernel-ok, loaded_image_apart,
  loaded_image-identity_map,
}

-- An address range that the loader does not use for itself.
abbrev pub IsFree : List ℕ → ℕ → ℕ → Type 0
IsFree cmdline a n =
    ((a + n ≤ 0x7000) ⊎ (0x8000 ≤ a))
    × ((a + n ≤ 0x9000) ⊎ (0xf000 ≤ a))
    × ((a + n ≤ 0x10000) ⊎ (0x10000 + length cmdline < a))

module _ (G : GuestMemory) (size : ℕ) (parse : List ℕ → Option Elf) (self : KernelLoader)
    (buffer cmdline : List ℕ) (elf : Elf) (m : G.Mem)
    (can : CanLoad G size parse buffer cmdline elf m) where
  abbrev pub Succeeds : G.Mem → Type 0
  Succeeds t =
      load_kernel G parse self (ok buffer) cmdline m
      ≡ (record { entry_point = elf.entry; cmdline = cmdline }, t, ok tt)

  -- A load of a kernel as in `CanLoad` with its first 16 bytes in backed memory succeeds and sets the
  -- loader's fields. The page tables that it leaves at 0x9000 then translate every address below 4 GB
  -- to itself, and fault on every other address below 2^48.
  pub load_kernel-identity_map :
      (va : ℕ)
      → elf.entry + 16 ≤ size
      → va < 2 ^ 48
      → (t : G.Mem) × Succeeds t
        × (translate (G.byte t) 0x9000 va ≡ (if ltb va (2 ^ 32) then some va else none))
  load_kernel-identity_map va inside h =
      let (t, e, image) = load_kernel-ok G size parse self buffer cmdline elf m can inside in
      (
        t,
        e,
        rw image (loaded_image-identity_map buffer elf.program_headers cmdline (G.byte m) va h),
      )

  -- A load of a kernel as in `CanLoad` with its first 16 bytes in backed memory succeeds, and the boot
  -- parameters that it leaves at 0x7000 name the loader type 0xff, point to the command line with its
  -- terminator, and describe one region of RAM, which starts at 0 and is 128 MB long.
  pub load_kernel-boot_params :
      elf.entry + 16 ≤ size
      → (t : G.Mem) × Succeeds t
        × (bytes_at (G.byte t) 1 0x7210 ≡ some (0xff ∷ []))
        × (bytes_at (G.byte t) 4 0x7228 ≡ some (to_le_bytes 4 0x10000))
        × (bytes_at (G.byte t) (length cmdline + 1) 0x10000 ≡ some (cmdline ++ (0 ∷ [])))
        × (bytes_at (G.byte t) 1 0x71e8 ≡ some (1 ∷ []))
        × (bytes_at (G.byte t) 8 0x72d0 ≡ some (to_le_bytes 8 0))
        × (bytes_at (G.byte t) 8 0x72d8 ≡ some (to_le_bytes 8 (128 * 1024 * 1024)))
        × (bytes_at (G.byte t) 4 0x72e0 ≡ some (to_le_bytes 4 1))
  unfolding loaded_image
  load_kernel-boot_params inside =
      let (t, e, image) = load_kernel-ok G size parse self buffer cmdline elf m can inside in
      let f : Image = tables_image (segments_image buffer elf.program_headers (G.byte m)) in
      let p = boot_params-IsBootParams in
      (
        t,
        e,
        rw image (boot_image-field cmdline f 0x210 1 (omega arith) ∙ ap some p.type_of_loader),
        rw image (boot_image-field cmdline f 0x228 4 (omega arith) ∙ ap some p.cmd_line_ptr),
        rw image (boot_image-cmdline cmdline f),
        rw image (boot_image-field cmdline f 0x1e8 1 (omega arith) ∙ ap some p.e820_entries),
        rw image (boot_image-field cmdline f 0x2d0 8 (omega arith) ∙ ap some p.e820_addr),
        rw image (boot_image-field cmdline f 0x2d8 8 (omega arith) ∙ ap some p.e820_size),
        rw image (boot_image-field cmdline f 0x2e0 4 (omega arith) ∙ ap some p.e820_type),
      )

  -- A load of a kernel as in `CanLoad` with its first 16 bytes in backed memory succeeds, and a
  -- loadable segment that lies in the file, keeps off the loader's own areas and is overlapped by no
  -- later segment stands in memory, at its physical address, as in the file.
  pub load_kernel-segment :
      (pre : List ProgramHeader) (phdr : ProgramHeader) (post : List ProgramHeader)
      → elf.entry + 16 ≤ size
      → elf.program_headers ≡ pre ++ phdr ∷ post
      → phdr.p_type ≡ pt_load
      → phdr.p_offset + phdr.p_filesz ≤ length buffer
      → AllApart phdr.p_paddr phdr.p_filesz post
      → IsFree cmdline phdr.p_paddr phdr.p_filesz
      → (t : G.Mem) × Succeeds t
        × (bytes_at (G.byte t) phdr.p_filesz phdr.p_paddr
            ≡ some (take phdr.p_filesz (drop phdr.p_offset buffer)))
  load_kernel-segment pre phdr post inside split loads room apart free =
      let (t, e, image) = load_kernel-ok G size parse self buffer cmdline elf m can inside in
      (
        t,
        e,
        rw image (
            bytes_at_cong (loaded_image buffer elf.program_headers cmdline (G.byte m))
              (segments_image buffer elf.program_headers (G.byte m)) phdr.p_filesz phdr.p_paddr
              (λ i lt.
                loaded_image_apart buffer elf.program_headers cmdline (G.byte m) (phdr.p_paddr + i)
                  (omega arith) (omega arith) (omega arith))
            ∙ rw split (segments_image-segment buffer pre phdr post (G.byte m) loads room apart)),
      )

  -- If of a kernel as in `CanLoad` the entry point lies outside guest memory, it is loaded and the
  -- loader's fields are set, and then the load panics instead of returning an error.
  pub load_kernel-panic :
      size ≤ elf.entry
      → G.byte m elf.entry ≡ none
      → (t : G.Mem) × (load_kernel G parse self (ok buffer) cmdline m
          ≡ (record { entry_point = elf.entry; cmdline = cmdline }, t, panic))
        × (G.byte t ≡ loaded_image buffer elf.program_headers cmdline (G.byte m))
  load_kernel-panic outside missing =
      let (t, e, image, backed) = load_kernel-writes G size parse self buffer cmdline elf m can in
      let gone : G.byte t elf.entry ≡ none = rw image (
        loaded_image_apart buffer elf.program_headers cmdline (G.byte m) elf.entry (omega arith)
          (omega arith) (omega arith)
        ∙ segments_image_above buffer size elf.program_headers (G.byte m) elf.entry can.headers
            outside
        ∙ missing) in
      (
        t,
        e
            ∙ ap (λ x. (record { entry_point = elf.entry; cmdline = cmdline }, x.0, x.1))
                (read_entry-panic G size elf.entry t gone),
        image,
      )

-- With memory backed from 0 up, a file shorter than 2^64 bytes whose headers are loadable up to a
-- loadable one that ends past the end of the file, its end still being below 2^64, is refused with
-- that error. The loader's fields are untouched, and memory holds the segments before it.
pub load_kernel-past_end :
    (G : GuestMemory) (size : ℕ) (parse : List ℕ → Option Elf) (self : KernelLoader)
    (buffer cmdline : List ℕ) (elf : Elf) (m : G.Mem) (pre : List ProgramHeader)
    (phdr : ProgramHeader) (post : List ProgramHeader)
    → parse buffer ≡ some elf
    → elf.program_headers ≡ pre ++ phdr ∷ post
    → length buffer < 2 ^ 64
    → IsBacked (G.byte m) 0 size
    → AllLoadable buffer size pre
    → phdr.p_type ≡ pt_load
    → length buffer < phdr.p_offset + phdr.p_filesz
    → phdr.p_offset + phdr.p_filesz < 2 ^ 64
    → (t : G.Mem) × (load_kernel G parse self (ok buffer) cmdline m
        ≡ (self, t, err (memory_error "Invalid ELF segment: extends past end of file")))
      × (G.byte t ≡ segments_image buffer pre (G.byte m))
unfolding load_kernel enter
load_kernel-past_end G size parse self buffer cmdline elf m pre phdr post parses split fits backed
      headers loads past no_wrap =
    let (t, e, image) =
      load_segments-append G size buffer fits pre (phdr ∷ post) m backed headers in
    (
      t,
      rw (parses, load_kernel, split)
          (ap (enter G self elf cmdline)
            (e ∙ load_segments-past_end G size buffer fits phdr post t loads past no_wrap)),
      image,
    )

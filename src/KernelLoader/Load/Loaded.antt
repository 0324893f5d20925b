-- ===== src/KernelLoader/Load/Loaded.antt =====
-- Memory after `load_kernel`, and the loads that get as far as the read at the entry point.
use mo_vm.Common.{
  Option-cases, get_elem?-ne-none, ℕ, ◌+◌, ◌*◌, ◌^◌, ◌≤◌, ◌<◌, ◌≡◌, sym, ◌∙◌, ◌⊎◌, inl, inr, ap,
  Option, some, none, List, length, ltb, if◌then◌else◌, zeroed, length-zeroed, arith,
}
use mo_vm.Error.{ok, panic}
use mo_vm.Error.Action.{Runs, Runs-then, ◌>>◌, after, after_assoc}
use mo_vm.GuestMemory.{GuestMemory, Image, IsBacked}
use mo_vm.GuestMemory.Image.{IsBacked-within, read_u64, read_u64_cong}
use mo_vm.KernelLoader.{
  KernelLoader, ProgramHeader, Elf, write_page_tables, write_boot_params, read_entry, finish, enter,
  load_kernel,
}
use mo_vm.KernelLoader.Paging.{translate, IsIdentityMap, translate-IsIdentityMap}
use mo_vm.KernelLoader.PageTables.{
  tables_image, tables_image-IsIdentityMap, tables_image_apart, write_page_tables-Runs,
}
use mo_vm.KernelLoader.Segments.{segments_image, AllLoadable, load_segments-Runs}
use mo_vm.KernelLoader.BootParams.{boot_image, boot_image_apart, write_boot_params-Runs}

-- Memory after a load.
unfoldable pub loaded_image : List ℕ → List ProgramHeader → List ℕ → Image → Image
loaded_image buffer phdrs cmdline f =
    boot_image cmdline (tables_image (segments_image buffer phdrs f))

-- The file is an ELF file whose loadable segments lie in it and in the backed memory, and so does
-- the command line.
pub record CanLoad (G : GuestMemory) (size : ℕ) (parse : List ℕ → Option Elf)
    (buffer cmdline : List ℕ) (elf : Elf) (m : G.Mem) : Type 0 where
  pub parses : parse buffer ≡ some elf
  pub fits : length buffer < 2 ^ 64
  pub backed : IsBacked (G.byte m) 0 size
  pub headers : AllLoadable buffer size elf.program_headers
  pub cmdline_room : 0x10000 + length cmdline + 1 ≤ size

module _ (G : GuestMemory) (size : ℕ) where
  read_entry-ok :
      (entry : ℕ) (m : G.Mem)
      → IsBacked (G.byte m) 0 size
      → entry + 16 ≤ size
      → read_entry G entry m ≡ (m, ok tt)
  unfolding read_entry
  read_entry-ok entry m backed inside = rw (
    G.read_total m (zeroed 16) entry (
        IsBacked-within (G.byte m) 0 size entry (length (zeroed 16)) backed (omega arith)
          (omega (arith, length-zeroed 16))),
    read_entry,
  )

  -- Where the entry point is not backed the read cannot have succeeded.
  pub read_entry-panic :
      (entry : ℕ) (m : G.Mem) → G.byte m entry ≡ none → read_entry G entry m ≡ (m, panic)
  unfolding read_entry
  read_entry-panic entry m missing = elim (Option-cases (G.read_slice m (zeroed 16) entry).1) [
    | inl done ↦ absurd (
        get_elem?-ne-none (G.read_slice m (zeroed 16) entry).0 0
          (omega (arith, G.read_length m (zeroed 16) entry, length-zeroed 16))
          (G.read_byte m (zeroed 16) entry 0 done (omega (arith, length-zeroed 16))
            ∙ ap (G.byte m) (omega arith)
            ∙ missing))
    | inr (e, failed) ↦ rw (failed, read_entry)
  ]

  finish-after :
      (cmdline : List ℕ) (entry : ℕ) (m : G.Mem) {u : Unit {0}} {t : G.Mem}
      → (write_page_tables G >> write_boot_params G cmdline) m ≡ (t, ok u)
      → finish G cmdline entry m ≡ read_entry G entry t
  unfolding finish
  finish-after cmdline entry m e =
      sym (
        after_assoc (write_page_tables G m) (λ _. write_boot_params G cmdline)
          (λ _. read_entry G entry))
      ∙ ap (λ x. after x (λ _. read_entry G entry)) e

  write_all-Runs :
      (cmdline : List ℕ) (m : G.Mem)
      → IsBacked (G.byte m) 0 size
      → 0x10000 + length cmdline + 1 ≤ size
      → Runs (write_page_tables G >> write_boot_params G cmdline) m λ _ t.
        (G.byte t ≡ boot_image cmdline (tables_image (G.byte m))) × IsBacked (G.byte t) 0 size
  write_all-Runs cmdline m backed room =
      Runs-then (write_page_tables G) (write_boot_params G cmdline) m _ _
        (write_page_tables-Runs G size m backed (omega arith))
        λ t p.
          let (u, v, r, q) = write_boot_params-Runs G size cmdline t p.1 room in
          (u, v, r, (q.0 ∙ ap (boot_image cmdline) p.0, q.1))

module _ (G : GuestMemory) (size : ℕ) (parse : List ℕ → Option Elf) (self : KernelLoader)
    (buffer cmdline : List ℕ) (elf : Elf) (m : G.Mem)
    (can : CanLoad G size parse buffer cmdline elf m) where
  -- Up to the last read everything succeeds.
  pub load_kernel-writes :
      (t : G.Mem) × (load_kernel G parse self (ok buffer) cmdline m ≡ (
        let (u, r) = read_entry G elf.entry t in
        (record { entry_point = elf.entry; cmdline = cmdline }, u, r)))
      × (G.byte t ≡ loaded_image buffer elf.program_headers cmdline (G.byte m))
      × IsBacked (G.byte t) 0 size
  unfolding load_kernel enter finish loaded_image
  load_kernel-writes =
      let (u, t, r, p) =
        load_segments-Runs G size buffer can.fits elf.program_headers m can.backed can.headers in
      let (v, w, r', q) = write_all-Runs G size cmdline t p.1 can.cmdline_room in
      (
        w,
        rw (can.parses, load_kernel)
            (ap (enter G self elf cmdline) r
              ∙ ap (λ x. (record { entry_point = elf.entry; cmdline = cmdline }, x.0, x.1))
                  (finish-after G size cmdline elf.entry t r')),
        q.0 ∙ ap (λ f. boot_image cmdline (tables_image f)) p.0,
        q.1,
      )

  -- A load of a kernel and memory as in `CanLoad` succeeds, sets the loader's fields, and leaves memory
  -- as `loaded_image` says.
  pub load_kernel-ok :
      elf.entry + 16 ≤ size
      → (t : G.Mem) × (load_kernel G parse self (ok buffer) cmdline m
          ≡ (record { entry_point = elf.entry; cmdline = cmdline }, t, ok tt))
        × (G.byte t ≡ loaded_image buffer elf.program_headers cmdline (G.byte m))
  load_kernel-ok inside =
      let (t, e, image, backed) = load_kernel-writes in
      (
        t,
        e
            ∙ ap (λ x. (record { entry_point = elf.entry; cmdline = cmdline }, x.0, x.1))
                (read_entry-ok G size elf.entry t backed inside),
        image,
      )

-- Outside what the loader writes for itself, memory holds the kernel's segments.
pub loaded_image_apart :
    (buffer : List ℕ) (phdrs : List ProgramHeader) (cmdline : List ℕ) (f : Image) (x : ℕ)
    → (x < 0x7000) ⊎ (0x8000 ≤ x)
    → (x < 0x9000) ⊎ (0xf000 ≤ x)
    → (x < 0x10000) ⊎ (0x10000 + length cmdline < x)
    → loaded_image buffer phdrs cmdline f x ≡ segments_image buffer phdrs f x
unfolding loaded_image
loaded_image_apart buffer phdrs cmdline f x h k l =
    boot_image_apart cmdline (tables_image (segments_image buffer phdrs f)) x h l
    ∙ tables_image_apart (segments_image buffer phdrs f) x k

pub loaded_image-identity_map :
    (buffer : List ℕ) (phdrs : List ProgramHeader) (cmdline : List ℕ) (f : Image) (va : ℕ)
    → va < 2 ^ 48
    → translate (loaded_image buffer phdrs cmdline f) 0x9000 va
      ≡ (if ltb va (2 ^ 32) then some va else none)
unfolding loaded_image
loaded_image-identity_map buffer phdrs cmdline f va h =
    translate-IsIdentityMap (loaded_image buffer phdrs cmdline f) va
      (record {
        root = keep 0x9000 (omega arith) (omega arith) ∙ t.root;
        no_root = λ i lo hi. keep (0x9000 + i * 8) (omega arith) (omega arith) ∙ t.no_root i lo hi;
        directory = λ i lt. keep (0xa000 + i * 8) (omega arith) (omega arith) ∙ t.directory i lt;
        no_directory =
            λ i lo hi. keep (0xa000 + i * 8) (omega arith) (omega arith) ∙ t.no_directory i lo hi;
        page = λ i lt. keep (0xb000 + i * 8) (omega arith) (omega arith) ∙ t.page i lt;
      })
      h
  where
    g : Image
    g = segments_image buffer phdrs f

    t : IsIdentityMap 0x9000 (tables_image g)
    t = tables_image-IsIdentityMap g

    keep :
        (a : ℕ)
        → 0x9000 ≤ a
        → a + 8 ≤ 0xf000
        → read_u64 (boot_image cmdline (tables_image g)) a ≡ read_u64 (tables_image g) a
    keep a lo hi =
        read_u64_cong (boot_image cmdline (tables_image g)) (tables_image g) a
          λ i lt. boot_image_apart cmdline (tables_image g) (a + i) (omega arith) (omega arith)

-- ===== src/Bootloader/Bios.antt =====
-- Where the boot sector and the interrupt handlers stand, and the state that starts the boot sector.
use mo_vm.Common.{
  ℕ, ◌+◌, ◌*◌, ◌%◌, ◌^◌, ◌≤◌, ◌<◌, max, ◌≡◌, refl, ◌∙◌, ap, Option, none, some, List, [], ◌∷◌,
  length, arith,
}
use mo_vm.Error.{ok}
use mo_vm.Error.Action.{Runs}
use mo_vm.GuestMemory.{GuestMemory, Image, IsBacked, overlay}
use mo_vm.GuestMemory.Image.{
  bytes_at, bytes_at-overlay_apart, bytes_at-overlay_self, write_then-Runs,
}
use mo_vm.Vcpu.{
  Segment, Sregs, Vcpu, Ioctl, ioctl, get_regs_ioctl, set_regs_ioctl, get_sregs_ioctl,
  set_sregs_ioctl,
}
use mo_vm.Vcpu.Init.{linear, IsFlatAt}
use mo_vm.Bootloader.{
  ivt_entry, write_dummies, install_minimal_bios, load_bootloader, real_mode_sregs, real_mode_regs,
  init_vcpu_for_real_mode,
}

-- Memory after the boot path's writes.
boot : List ℕ → Image → Image
boot buffer f = overlay f buffer 0x7c00

int10 : Image → Image
int10 f = overlay f (0xba ∷ 0xf8 ∷ 0x03 ∷ 0xee ∷ 0xcf ∷ []) 0x1000

vector10 : Image → Image
vector10 f = overlay f (ivt_entry 0x1000) 0x40

iret : Image → Image
iret f = overlay f (0xcf ∷ []) 0x1010

dummy : ℕ → Image → Image
dummy i f = overlay f (ivt_entry 0x1010) (i * 4)

bios_image : List ℕ → Image → Image
bios_image buffer f = dummy 0x16 (dummy 0x15 (dummy 0x13 (iret (vector10 (int10 (boot buffer f))))))

-- The address that the interrupt vector table gives for a vector.
abbrev pub entry_of : List ℕ → ℕ
entry_of (a ∷ b ∷ c ∷ d ∷ _) = a + 256 * b + 16 * (c + 256 * d)
entry_of _ = 0

abbrev pub handler : Image → ℕ → Option ℕ
handler f vector = elim (bytes_at f 4 (vector * 4)) [ none ↦ none | some bs ↦ some (entry_of bs) ]

-- What the boot path promises of memory.
pub record IsBooted (buffer : List ℕ) (f : Image) : Type 0 where
  pub sector : bytes_at f (length buffer) 0x7c00 ≡ some buffer
  pub video : handler f 0x10 ≡ some 0x1000
  pub video_code : bytes_at f 5 0x1000 ≡ some (0xba ∷ 0xf8 ∷ 0x03 ∷ 0xee ∷ 0xcf ∷ [])
  pub others :
      (handler f 0x13 ≡ some 0x1010)
      × (handler f 0x15 ≡ some 0x1010)
      × (handler f 0x16 ≡ some 0x1010)
  pub others_code : bytes_at f 1 0x1010 ≡ some (0xcf ∷ [])

-- A range that the writes after the boot sector keep off.
after_boot-apart :
    (f : Image) (n a : ℕ)
    → 0x1011 ≤ a
    → bytes_at (dummy 0x16 (dummy 0x15 (dummy 0x13 (iret (vector10 (int10 f)))))) n a
      ≡ bytes_at f n a
unfolding dummy iret vector10 int10
after_boot-apart f n a h =
    bytes_at-overlay_apart (dummy 0x15 (dummy 0x13 (iret (vector10 (int10 f))))) (ivt_entry 0x1010)
      0x58 n a (omega arith)
    ∙ bytes_at-overlay_apart (dummy 0x13 (iret (vector10 (int10 f)))) (ivt_entry 0x1010) 0x54 n a
        (omega arith)
    ∙ bytes_at-overlay_apart (iret (vector10 (int10 f))) (ivt_entry 0x1010) 0x4c n a (omega arith)
    ∙ bytes_at-overlay_apart (vector10 (int10 f)) (0xcf ∷ []) 0x1010 n a (omega arith)
    ∙ bytes_at-overlay_apart (int10 f) (ivt_entry 0x1000) 0x40 n a (omega arith)
    ∙ bytes_at-overlay_apart f (0xba ∷ 0xf8 ∷ 0x03 ∷ 0xee ∷ 0xcf ∷ []) 0x1000 n a (omega arith)

bios_image-IsBooted : (buffer : List ℕ) (f : Image) → IsBooted buffer (bios_image buffer f)
unfolding bios_image dummy iret vector10 int10 boot
bios_image-IsBooted buffer f = record {
  sector =
      after_boot-apart (boot buffer f) (length buffer) 0x7c00 (omega arith)
      ∙ bytes_at-overlay_self f buffer 0x7c00;
  video = refl;
  video_code = refl;
  others = (refl, refl, refl);
  others_code = refl;
}

module _ (G : GuestMemory) (size : ℕ) where
  write_dummies-Runs :
      (m : G.Mem)
      → IsBacked (G.byte m) 0 size
      → 0x1010 ≤ size
      → Runs
          (write_dummies G (0x13 ∷ 0x15 ∷ 0x16 ∷ []))
          m
          (λ _ t. G.byte t ≡ dummy 0x16 (dummy 0x15 (dummy 0x13 (G.byte m))))
  unfolding write_dummies dummy
  write_dummies-Runs m b room =
      write_then-Runs G size (ivt_entry 0x1010) 0x4c _ _ m _ b (omega arith) λ t e b.
        write_then-Runs G size (ivt_entry 0x1010) 0x54 _ _ t _ b (omega arith) λ u e' b.
          write_then-Runs G size (ivt_entry 0x1010) 0x58 _ _ u _ b (omega arith)
            λ v e'' b. (tt, v, refl, e'' ∙ ap (dummy 0x16) (e' ∙ ap (dummy 0x15) e))

  install_minimal_bios-Runs :
      (m : G.Mem)
      → IsBacked (G.byte m) 0 size
      → 0x1011 ≤ size
      → Runs (install_minimal_bios G) m (λ _ t.
        G.byte t ≡ dummy 0x16 (dummy 0x15 (dummy 0x13 (iret (vector10 (int10 (G.byte m)))))))
  unfolding install_minimal_bios iret vector10 int10
  install_minimal_bios-Runs m b room =
      write_then-Runs G size (0xba ∷ 0xf8 ∷ 0x03 ∷ 0xee ∷ 0xcf ∷ []) 0x1000 _ _ m _ b (omega arith)
        λ t e b. write_then-Runs G size (ivt_entry 0x1000) 0x40 _ _ t _ b (omega arith) λ u e' b.
          write_then-Runs G size (0xcf ∷ []) 0x1010 _ _ u _ b (omega arith) λ v e'' b.
            let (x, w, r, q) = write_dummies-Runs v b (omega arith) in
            (
              x,
              w,
              r,
              q
                  ∙ ap (λ f. dummy 0x16 (dummy 0x15 (dummy 0x13 f)))
                      (e'' ∙ ap iret (e' ∙ ap vector10 e)),
            )

  -- With room for the boot sector in memory that is backed from 0 up, the load succeeds. The sector
  -- then stands at 0x7c00, the vectors 0x10, 0x13, 0x15 and 0x16 lead to the two handlers, and their
  -- code is there.
  pub load_bootloader-IsBooted :
      (buffer : List ℕ) (m : G.Mem)
      → IsBacked (G.byte m) 0 size
      → 0x7c00 + max 1 (length buffer) ≤ size
      → (t : G.Mem) × (load_bootloader G (ok buffer) m ≡ (t, ok tt)) × IsBooted buffer (G.byte t)
  unfolding load_bootloader bios_image boot
  load_bootloader-IsBooted buffer m b room =
      let (x, t, r, q) =
        write_then-Runs G size buffer 0x7c00 _ (install_minimal_bios G) m
          (λ _ t. G.byte t ≡ bios_image buffer (G.byte m)) b room
          (λ t e b.
            let (x, u, r, q) = install_minimal_bios-Runs t b (omega arith) in
            (
              x,
              u,
              r,
              q ∙ ap (λ f. dummy 0x16 (dummy 0x15 (dummy 0x13 (iret (vector10 (int10 f)))))) e,
            )) in
      (t, r, rw q (bios_image-IsBooted buffer (G.byte m)))

-- Its offsets are of 16 bits: no default size of 32 or 64 bits, and the limit of real mode.
abbrev pub Is16Bit : Segment → Type 0
Is16Bit seg = (seg.db ≡ 0) × (seg.l ≡ 0) × (seg.limit ≡ 0xffff)

abbrev pub All16Bit : Sregs → Type 0
All16Bit sregs =
    Is16Bit sregs.cs
    × Is16Bit sregs.ds
    × Is16Bit sregs.es
    × Is16Bit sregs.fs
    × Is16Bit sregs.gs
    × Is16Bit sregs.ss

-- With every ioctl working, a vCPU is left in real mode at the address of the boot sector, with 16-bit
-- segments (no default size of 32 or 64 bits, the limit 0xffff) that start at address 0, the stack
-- below the sector, and the interrupt vectors at 0.
pub init_vcpu_for_real_mode-IsFlatAt :
    (vcpu : Vcpu) (offset : ℕ)
    → ((call : Ioctl) → vcpu.failures call ≡ none)
    → offset < 2 ^ 16
    → let (t, r) = init_vcpu_for_real_mode vcpu in
      (r ≡ ok tt)
      × All16Bit t.sregs
      × IsFlatAt t.sregs offset
      × (linear t.sregs.cs t.regs.rip ≡ some 0x7c00)
      × (linear t.sregs.ss t.regs.rsp ≡ some 0x7c00)
      × (t.sregs.cr0 % 2 ≡ 0)
      × (t.sregs.idt ≡ record { base = 0; limit = 0x3ff })
unfolding init_vcpu_for_real_mode real_mode_sregs real_mode_regs ioctl
init_vcpu_for_real_mode-IsFlatAt vcpu offset works lt =
    let f = λ (call : Ioctl). works call in
    ground (arith, f get_regs_ioctl, f set_regs_ioctl, f get_sregs_ioctl, f set_sregs_ioctl)

-- ===== src/KernelLoader/Tests.antt =====
-- A small kernel in a flat memory of 128 KB and a little more, and the theorems at it.
use mo_vm.Common.{ℕ, ◌≡◌, refl, some, List, [], ◌∷◌, to_le_bytes, arith}
use mo_vm.Error.{ok, err, memory_error, panic}
use mo_vm.GuestMemory.Flat.{Flat, flat, zeros, zeros-IsBacked}
use mo_vm.KernelLoader.{ProgramHeader, Elf, new, load_kernel}
use mo_vm.KernelLoader.Paging.{translate}
use mo_vm.KernelLoader.Segments.{segments_image}
use mo_vm.KernelLoader.Load.Loaded.{CanLoad, loaded_image}
use mo_vm.KernelLoader.Load.{
  Succeeds, load_kernel-identity_map, load_kernel-boot_params, load_kernel-segment,
  load_kernel-panic, load_kernel-past_end,
}
use mo_vm.GuestMemory.Image.{bytes_at}

abbrev size : ℕ
size = 0x20000

abbrev buffer : List ℕ
buffer = 0x7f ∷ 0x90 ∷ 0x91 ∷ 0x92 ∷ []

abbrev code : ProgramHeader
code = record { p_type = 1; p_offset = 1; p_paddr = 0x11000; p_filesz = 3 }

abbrev note : ProgramHeader
note = record { p_type = 4; p_offset = 0; p_paddr = 0; p_filesz = 99 }

abbrev too_long : ProgramHeader
too_long = record code { p_filesz = 4 }

abbrev kernel : ℕ → List ProgramHeader → Elf
kernel entry phdrs = record { program_headers = phdrs; entry = entry }

abbrev cmdline : List ℕ
cmdline = b'r' ∷ b'w' ∷ []

can_load :
    (entry : ℕ)
    → CanLoad flat size
        (λ _. some (kernel entry (note ∷ code ∷ [])))
        buffer
        cmdline
        (kernel entry (note ∷ code ∷ []))
        (zeros size)
can_load entry = record {
  parses = refl;
  fits = omega arith;
  backed = zeros-IsBacked size (omega arith);
  headers = (
    λ e. absurd (omega arith),
    (λ e. record { in_file = omega arith; in_memory = omega arith }, tt),
  );
  cmdline_room = omega arith;
}

abbrev bootable : Elf
bootable = kernel 0x11000 (note ∷ code ∷ [])

load_kernel-identity_map_example :
    (t : Flat) × Succeeds flat size
      (λ _. some bootable)
      new
      buffer
      cmdline
      bootable
      (zeros size)
      (can_load 0x11000)
      t
    × (translate (flat.byte t) 0x9000 0xfee00010 ≡ some 0xfee00010)
load_kernel-identity_map_example =
    load_kernel-identity_map flat size (λ _. some bootable) new buffer cmdline bootable (zeros size)
      (can_load 0x11000) 0xfee00010 (omega arith) (omega arith)

load_kernel-boot_params_example :
    (t : Flat) × Succeeds flat size
      (λ _. some bootable)
      new
      buffer
      cmdline
      bootable
      (zeros size)
      (can_load 0x11000)
      t
    × (bytes_at (flat.byte t) 1 0x7210 ≡ some (0xff ∷ []))
    × (bytes_at (flat.byte t) 4 0x7228 ≡ some (to_le_bytes 4 0x10000))
    × (bytes_at (flat.byte t) 3 0x10000 ≡ some (b'r' ∷ b'w' ∷ 0 ∷ []))
    × (bytes_at (flat.byte t) 1 0x71e8 ≡ some (1 ∷ []))
    × (bytes_at (flat.byte t) 8 0x72d0 ≡ some (to_le_bytes 8 0))
    × (bytes_at (flat.byte t) 8 0x72d8 ≡ some (to_le_bytes 8 0x8000000))
    × (bytes_at (flat.byte t) 4 0x72e0 ≡ some (to_le_bytes 4 1))
load_kernel-boot_params_example =
    load_kernel-boot_params flat size (λ _. some bootable) new buffer cmdline bootable (zeros size)
      (can_load 0x11000) (omega arith)

load_kernel-segment_example :
    (t : Flat) × Succeeds flat size
      (λ _. some bootable)
      new
      buffer
      cmdline
      bootable
      (zeros size)
      (can_load 0x11000)
      t
    × (bytes_at (flat.byte t) 3 0x11000 ≡ some (0x90 ∷ 0x91 ∷ 0x92 ∷ []))
load_kernel-segment_example =
    load_kernel-segment flat size (λ _. some bootable) new buffer cmdline bootable (zeros size)
      (can_load 0x11000) (note ∷ []) code [] (omega arith) refl refl (omega arith) tt (omega arith)

abbrev headless : Elf
headless = kernel 0x20000 (note ∷ code ∷ [])

load_kernel-panic_example :
    (t : Flat) × (load_kernel flat (λ _. some headless) new (ok buffer) cmdline (zeros size)
      ≡ (record { entry_point = 0x20000; cmdline = cmdline }, t, panic))
    × (flat.byte t ≡ loaded_image buffer (note ∷ code ∷ []) cmdline (flat.byte (zeros size)))
load_kernel-panic_example =
    load_kernel-panic flat size (λ _. some headless) new buffer cmdline headless (zeros size)
      (can_load 0x20000) (omega arith) refl

abbrev truncated : Elf
truncated = kernel 0x11000 (note ∷ code ∷ too_long ∷ [])

load_kernel-past_end_example :
    (t : Flat) × (load_kernel flat (λ _. some truncated) new (ok buffer) cmdline (zeros size)
      ≡ (new, t, err (memory_error "Invalid ELF segment: extends past end of file")))
    × (flat.byte t ≡ segments_image buffer (note ∷ code ∷ []) (flat.byte (zeros size)))
load_kernel-past_end_example =
    load_kernel-past_end flat size (λ _. some truncated) new buffer cmdline truncated (zeros size)
      (note ∷ code ∷ []) too_long [] refl refl (omega arith) (zeros-IsBacked size (omega arith))
      ((can_load 0x11000).headers) refl (omega arith) (omega arith)

-- ===== src/Bootloader.antt =====
-- rust-hypervisor/src/bootloader.rs: the real-mode boot path. The file's content is an argument.
pub mod Bios
mod Tests
use Prim.Native.String.{◌++◌ as append}
use mo_vm.Common.{ℕ, ◌+◌, ◌*◌, ◌/◌, ◌%◌, ◌^◌, List, [], ◌∷◌, bit_and}
use mo_vm.Error.{memory_error, Outcome, ok, err, panic}
use mo_vm.Error.Action.{Action, return, ◌>>=◌, ◌>>◌}
use mo_vm.GuestMemory.{GuestMemory, write}
use mo_vm.Vcpu.{Segment, Regs, Sregs, Vcpu, get_sregs, set_sregs, get_regs, set_regs}

abbrev pub bios_addr : ℕ
bios_addr = 0x1000

-- The two bytes of a handler's offset, and the zero segment.
abbrev pub ivt_entry : ℕ → List ℕ
ivt_entry handler = bit_and handler 0xff ∷ bit_and (handler / 2 ^ 8) 0xff ∷ 0 ∷ 0 ∷ []

module _ (G : GuestMemory) where
  -- `for i in &[…]`
  unfoldable pub write_dummies : List ℕ → Action G.Mem (Unit {0})
  write_dummies [] = return tt
  write_dummies (i ∷ is) =
      write G (ivt_entry (bios_addr + 0x10)) (i * 4)
        (λ _. memory_error "Failed to write dummy IVT entry")
      >> write_dummies is

  unfoldable pub install_minimal_bios : Action G.Mem (Unit {0})
  install_minimal_bios = do
    write G (0xba ∷ 0xf8 ∷ 0x03 ∷ 0xee ∷ 0xcf ∷ []) bios_addr
        (λ _. memory_error "Failed to write INT 0x10 handler")
    write G (ivt_entry bios_addr) 0x40 (λ _. memory_error "Failed to write IVT entry 0x10")
    write G (0xcf ∷ []) (bios_addr + 0x10) (λ _. memory_error "Failed to write dummy iret")
    write_dummies (0x13 ∷ 0x15 ∷ 0x16 ∷ [])

  -- `file` is what opening and reading the path gives.
  unfoldable pub load_bootloader : Outcome (List ℕ) → Action G.Mem (Unit {0})
  load_bootloader (err e) m = (m, err e)
  load_bootloader panic m = (m, panic)
  load_bootloader (ok buffer) m =
      (write G buffer 0x7c00 (λ e. memory_error (append "Failed to write bootloader: " e))
          >> install_minimal_bios)
        m

-- The real-mode state, whatever was set before; what is not named stays.
unfoldable pub real_mode_sregs : Sregs → Sregs
real_mode_sregs sregs =
    let cs : Segment = record (sregs.cs) {
      base = 0;
      limit = 0xffff;
      selector = 0;
      type_ = 11;
      present = 1;
      dpl = 0;
      db = 0;
      s = 1;
      l = 0;
      g = 0;
      avl = 0;
    } in
    let data_seg : Segment = record cs { type_ = 3 } in
    record sregs {
      cs = cs;
      ds = data_seg;
      es = data_seg;
      fs = data_seg;
      gs = data_seg;
      ss = data_seg;
      cr0 = 0x10;
      cr3 = 0;
      cr4 = 0;
      efer = 0;
      idt = record { base = 0; limit = 0x3ff };
      gdt = record { base = 0; limit = 0xffff };
    }

unfoldable pub real_mode_regs : Regs → Regs
real_mode_regs regs = record regs { rflags = 0x2; rip = 0x7c00; rsp = 0x7c00; rbp = 0 }

unfoldable pub init_vcpu_for_real_mode : Action Vcpu (Unit {0})
init_vcpu_for_real_mode = do
  sregs ← get_sregs
  set_sregs (real_mode_sregs sregs)
  regs ← get_regs
  set_regs (real_mode_regs regs)

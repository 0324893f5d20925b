-- ===== src/Bootloader/Tests.antt =====
-- A boot sector of two bytes in a flat memory of 64 KB.
use mo_vm.Common.{ℕ, ◌%◌, ◌≡◌, refl, none, some, List, [], ◌∷◌, arith}
use mo_vm.Error.{ok}
use mo_vm.GuestMemory.Flat.{Flat, flat, zeros, zeros-IsBacked}
use mo_vm.Vcpu.{Vcpu}
use mo_vm.Vcpu.Init.{linear, IsFlatAt}
use mo_vm.Vcpu.Tests.{fresh}
use mo_vm.Bootloader.{load_bootloader, init_vcpu_for_real_mode}
use mo_vm.Bootloader.Bios.{
  All16Bit, IsBooted, load_bootloader-IsBooted, init_vcpu_for_real_mode-IsFlatAt,
}

abbrev sector : List ℕ
sector = 0xeb ∷ 0xfe ∷ []

load_bootloader-IsBooted_example :
    (t : Flat) × (load_bootloader flat (ok sector) (zeros 0x10000) ≡ (t, ok tt))
    × IsBooted sector (flat.byte t)
load_bootloader-IsBooted_example =
    load_bootloader-IsBooted flat 0x10000 sector (zeros 0x10000)
      (zeros-IsBacked 0x10000 (omega arith)) (omega arith)

abbrev cpu : Vcpu
cpu = fresh (λ call. none)

init_vcpu_for_real_mode-IsFlatAt_example :
    let (t, r) = init_vcpu_for_real_mode cpu in
    (r ≡ ok tt)
    × All16Bit t.sregs
    × IsFlatAt t.sregs 0xffff
    × (linear t.sregs.cs t.regs.rip ≡ some 0x7c00)
    × (linear t.sregs.ss t.regs.rsp ≡ some 0x7c00)
    × (t.sregs.cr0 % 2 ≡ 0)
    × (t.sregs.idt ≡ record { base = 0; limit = 0x3ff })
init_vcpu_for_real_mode-IsFlatAt_example =
    init_vcpu_for_real_mode-IsFlatAt cpu 0xffff (λ call. refl) (omega arith)

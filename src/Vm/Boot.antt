-- ===== src/Vm/Boot.antt =====
-- The vCPUs after a kernel or a boot loader is loaded.
use mo_vm.Common.{ℕ, ◌≡◌, refl, ap, ◌∙◌, String, Option, some, List, [], ◌∷◌, arith}
use mo_vm.Error.{Outcome, ok, err, panic}
use mo_vm.Error.Action.{Action}
use mo_vm.GuestMemory.{GuestMemory}
use mo_vm.KernelLoader.{KernelLoader, Elf, load_kernel as load_kernel_into, new as new_loader}
use mo_vm.Vcpu.{Vcpu, init, init_regs, ioctl, setup_msrs}
use mo_vm.Bootloader.{
  init_vcpu_for_real_mode, real_mode_sregs, real_mode_regs, load_bootloader as load_bootloader_into,
}
use mo_vm.Vm.{
  VirtualMachine, all_see, each_vcpu, go_on, started, loaded, with_memory, kernel_cmdline,
  load_kernel, booted, load_bootloader,
}

-- Every vCPU of the list meets `P`.
abbrev pub AllVcpus : (Vcpu → Type 0) → List Vcpu → Type 0
AllVcpus P [] = Unit {0}
AllVcpus P (vcpu ∷ vcpus) = P vcpu × AllVcpus P vcpus

init-starts :
    (entry_point boot_params : ℕ) (vcpu : Vcpu)
    → (init entry_point boot_params vcpu).1 ≡ ok tt
    → ((init entry_point boot_params vcpu).0.regs.rip ≡ entry_point)
      × ((init entry_point boot_params vcpu).0.regs.rsi ≡ boot_params)
unfolding init ioctl setup_msrs init_regs
init-starts entry_point boot_params vcpu e = ground arith

init_vcpu_for_real_mode-at :
    (vcpu : Vcpu)
    → (init_vcpu_for_real_mode vcpu).1 ≡ ok tt
    → ((init_vcpu_for_real_mode vcpu).0.regs.rip ≡ 0x7c00)
      × ((init_vcpu_for_real_mode vcpu).0.sregs.cs.base ≡ 0)
      × ((init_vcpu_for_real_mode vcpu).0.sregs.cr0 ≡ 0x10)
unfolding init_vcpu_for_real_mode ioctl real_mode_sregs real_mode_regs
init_vcpu_for_real_mode-at vcpu e = ground arith

-- A vCPU about to enter the boot sector in real mode.
abbrev pub AtSector : Vcpu → Type 0
AtSector vcpu = (vcpu.regs.rip ≡ 0x7c00) × (vcpu.sregs.cs.base ≡ 0) × (vcpu.sregs.cr0 ≡ 0x10)

-- A vCPU about to enter the loaded kernel.
abbrev pub Starts : KernelLoader → Vcpu → Type 0
Starts loader vcpu = (vcpu.regs.rip ≡ loader.entry_point) × (vcpu.regs.rsi ≡ 0x7000)

module _ (G : GuestMemory) (decimal : ℕ → String) where
  go_on-AllVcpus :
      (P : Vcpu → Type 0) (x : Vcpu × Outcome (Unit {0})) (vcpus : List Vcpu)
      (rest : List Vcpu × Outcome (Unit {0}))
      → (x.1 ≡ ok tt → P x.0)
      → (rest.1 ≡ ok tt → AllVcpus P rest.0)
      → (go_on G decimal x vcpus rest).1 ≡ ok tt
      → AllVcpus P (go_on G decimal x vcpus rest).0
  unfolding go_on
  go_on-AllVcpus P (vcpu, ok tt) vcpus rest p q e = (p refl, q e)
  go_on-AllVcpus P (vcpu, err x) vcpus rest p q e = ground arith
  go_on-AllVcpus P (vcpu, panic) vcpus rest p q e = ground arith

  each_vcpu-AllVcpus :
      (f : Action Vcpu (Unit {0})) (P : Vcpu → Type 0)
      → ((vcpu : Vcpu) → (f vcpu).1 ≡ ok tt → P (f vcpu).0)
      → (vcpus : List Vcpu) → (each_vcpu G decimal f vcpus).1 ≡ ok tt
      → AllVcpus P (each_vcpu G decimal f vcpus).0
  unfolding each_vcpu
  each_vcpu-AllVcpus f P h [] e = tt
  each_vcpu-AllVcpus f P h (vcpu ∷ vcpus) e =
      go_on-AllVcpus P (f vcpu) vcpus (each_vcpu G decimal f vcpus) (h vcpu)
        (each_vcpu-AllVcpus f P h vcpus) e

  -- What a machine is once a kernel is loaded into it.
  abbrev pub IsLoaded : VirtualMachine G decimal → Type 0
  IsLoaded t =
      (loader : KernelLoader) × (t.kernel_loader ≡ some loader) × AllVcpus (Starts loader) t.vcpus

  started-IsLoaded :
      (self : VirtualMachine G decimal) (loader : KernelLoader) (x : List Vcpu × Outcome (Unit {0}))
      → (x.1 ≡ ok tt → AllVcpus (Starts loader) x.0)
      → (started G decimal self loader x).1 ≡ ok tt
      → IsLoaded (started G decimal self loader x).0
  unfolding started
  started-IsLoaded self loader (vcpus, ok tt) h e = (loader, refl, h refl)
  started-IsLoaded self loader (vcpus, err x) h e = ground arith
  started-IsLoaded self loader (vcpus, panic) h e = ground arith

  loaded-IsLoaded :
      (self : VirtualMachine G decimal) (x : KernelLoader × G.Mem × Outcome (Unit {0}))
      → (loaded G decimal self x).1 ≡ ok tt
      → IsLoaded (loaded G decimal self x).0
  unfolding loaded
  loaded-IsLoaded self (loader, mem, err x) e = ground arith
  loaded-IsLoaded self (loader, mem, panic) e = ground arith
  loaded-IsLoaded self (loader, mem, ok _) e =
      started-IsLoaded (with_memory G decimal self mem) loader
        (each_vcpu G decimal (init loader.entry_point 0x7000) self.vcpus)
        (each_vcpu-AllVcpus (init loader.entry_point 0x7000) (Starts loader)
          (init-starts loader.entry_point 0x7000) self.vcpus)
        e

  -- When loading a kernel into a machine succeeds, the machine keeps the loader, and every vCPU,
  -- whatever its registers were, is at the loader's entry point with the boot parameters' address in
  -- rsi.
  pub load_kernel-IsLoaded :
      (utf8 : String → List ℕ) (parse : List ℕ → Option Elf) (file : Outcome (List ℕ))
      (self : VirtualMachine G decimal)
      → (load_kernel G decimal utf8 parse file self).1 ≡ ok tt
      → IsLoaded (load_kernel G decimal utf8 parse file self).0
  unfolding load_kernel
  load_kernel-IsLoaded utf8 parse file self e =
      loaded-IsLoaded self
        (load_kernel_into G parse new_loader file (utf8 kernel_cmdline) self.memory.memory) e

  booted-AtSector :
      (self : VirtualMachine G decimal) (x : G.Mem × Outcome (Unit {0}))
      → (booted G decimal self x).1 ≡ ok tt
      → AllVcpus AtSector (booted G decimal self x).0.vcpus
  unfolding booted with_memory
  booted-AtSector self (mem, err x) e = absurd (ground arith)
  booted-AtSector self (mem, panic) e = absurd (ground arith)
  booted-AtSector self (mem, ok _) e =
      each_vcpu-AllVcpus init_vcpu_for_real_mode AtSector init_vcpu_for_real_mode-at self.vcpus e

  pub load_bootloader-AtSector :
      (file : Outcome (List ℕ)) (self : VirtualMachine G decimal)
      → (load_bootloader G decimal file self).1 ≡ ok tt
      → AllVcpus AtSector (load_bootloader G decimal file self).0.vcpus
  unfolding load_bootloader
  load_bootloader-AtSector file self e =
      booted-AtSector self (load_bootloader_into G file self.memory.memory) e

  -- The same devices, with a new memory in their view.
  abbrev pub SameDevices : VirtualMachine G decimal → VirtualMachine G decimal → Type 0
  SameDevices self t = (mem : G.Mem) × (t.devices ≡ all_see G decimal mem self.devices)

  -- Loading changes nothing else of a device.
  loaded-devices :
      (self : VirtualMachine G decimal) (x : KernelLoader × G.Mem × Outcome (Unit {0}))
      → SameDevices self (loaded G decimal self x).0
  unfolding loaded started with_memory
  loaded-devices self (loader, mem, err x) = (mem, refl)
  loaded-devices self (loader, mem, panic) = (mem, refl)
  loaded-devices self (loader, mem, ok _) = (
    mem,
    started-devices (with_memory G decimal self mem)
        (each_vcpu G decimal (init loader.entry_point 0x7000) self.vcpus),
  )
    where
      started-devices :
          (t : VirtualMachine G decimal) (y : List Vcpu × Outcome (Unit {0}))
          → (started G decimal t loader y).0.devices ≡ t.devices
      started-devices t (vcpus, ok _) = refl
      started-devices t (vcpus, err x) = refl
      started-devices t (vcpus, panic) = refl

  pub load_kernel-devices :
      (utf8 : String → List ℕ) (parse : List ℕ → Option Elf) (file : Outcome (List ℕ))
      (self : VirtualMachine G decimal)
      → SameDevices self (load_kernel G decimal utf8 parse file self).0
  unfolding load_kernel
  load_kernel-devices utf8 parse file self =
      loaded-devices self
        (load_kernel_into G parse new_loader file (utf8 kernel_cmdline) self.memory.memory)

  booted-devices :
      (self : VirtualMachine G decimal) (x : G.Mem × Outcome (Unit {0}))
      → SameDevices self (booted G decimal self x).0
  unfolding booted with_memory
  booted-devices self (mem, err x) = (mem, refl)
  booted-devices self (mem, panic) = (mem, refl)
  booted-devices self (mem, ok _) = (mem, refl)

  pub load_bootloader-devices :
      (file : Outcome (List ℕ)) (self : VirtualMachine G decimal)
      → SameDevices self (load_bootloader G decimal file self).0
  unfolding load_bootloader
  load_bootloader-devices file self =
      booted-devices self (load_bootloader_into G file self.memory.memory)

  started-ok :
      (self : VirtualMachine G decimal) (loader : KernelLoader) (x : List Vcpu × Outcome (Unit {0}))
      → x.1 ≡ ok tt
      → (started G decimal self loader x).1 ≡ ok tt
  unfolding started
  started-ok self loader (vcpus, ok _) e = refl
  started-ok self loader (vcpus, err x) e = e
  started-ok self loader (vcpus, panic) e = e

  -- A kernel that loads into memory, on vCPUs that can be initialised, is loaded.
  pub load_kernel-succeeds :
      (utf8 : String → List ℕ) (parse : List ℕ → Option Elf) (file : Outcome (List ℕ))
      (self : VirtualMachine G decimal) (loader : KernelLoader) (mem : G.Mem)
      → load_kernel_into G parse new_loader file (utf8 kernel_cmdline) self.memory.memory
        ≡ (loader, mem, ok tt)
      → (each_vcpu G decimal (init loader.entry_point 0x7000) self.vcpus).1 ≡ ok tt
      → (load_kernel G decimal utf8 parse file self).1 ≡ ok tt
  unfolding load_kernel loaded with_memory
  load_kernel-succeeds utf8 parse file self loader mem e works =
      ap (λ x. (loaded G decimal self x).1) e
      ∙ started-ok (with_memory G decimal self mem) loader
          (each_vcpu G decimal (init loader.entry_point 0x7000) self.vcpus) works

-- ===== src/Startup/Booted.antt =====
-- The state in which a machine of vm.rs is run, after all that `main` did before.
use mo_vm.Common.{ℕ, arith, ◌≡◌, sym, ap, subst, ◌∙◌, String, Option, none, some, List, []}
use mo_vm.Error.{Outcome, ok, err, panic}
use mo_vm.Error.Action.{Action}
use mo_vm.GuestMemory.{GuestMemory}
use mo_vm.Memory.{MemorySlot}
use mo_vm.Vm.{VirtualMachine, with_memory, load_kernel, load_bootloader}
use mo_vm.Vm.Attach.{
  AllPlaced, AllPlaced-all_see, console_added-Keeps, block_added-Keeps, net_added-Keeps,
  fs_added-Keeps,
}
use mo_vm.Vm.Boot.{
  IsLoaded, load_kernel-IsLoaded, AllVcpus, AtSector, load_bootloader-AtSector, load_kernel-devices,
  load_bootloader-devices, SameDevices,
}
use mo_vm.Vm.New.{new}
use mo_vm.Vm.New.Fresh.{new-IsFresh}
use mo_vm.Vm.State.{restore_state}
use mo_vm.Startup.{Args, goes_on, prepared}
use mo_vm.Startup.Order.{LoadedLast, prepared-load_kernel, Keeps, prepared-Keeps}
use mo_vm.Startup.Real.{Host, State, on_machine, with_files, real}

module _ (G : GuestMemory) (decimal : ℕ → String) (host : Host G decimal)
    (file_name : String → Option String) where
  -- An action on the machine that succeeded.
  on_machine-ok :
      (f : Action (VirtualMachine G decimal) (Unit {0})) (s t : State G decimal host)
      → on_machine G decimal host f s ≡ (t, ok tt)
      → ((f s.0).1 ≡ ok tt) × ((f s.0).0 ≡ t.0)
  on_machine-ok f (self, files) t e = (ap (λ x. x.1) e, ap (λ x. x.0.0) e)

  -- Where the vCPUs start: at the boot sector if a boot loader is given, or else at the kernel's entry point.
  abbrev pub StartsAt : Option String → VirtualMachine G decimal → Type 0
  StartsAt none self = IsLoaded G decimal self
  StartsAt (some path) self = AllVcpus AtSector self.vcpus

  -- Whatever state was restored before: if the preparations of main lead to a run, every vCPU of the
  -- machine is in real mode at the start of the boot sector if a boot loader is given, and otherwise
  -- at the entry point of the loaded kernel with the boot parameters in rsi.
  pub prepared-StartsAt :
      (args : Args) (t : State G decimal host)
      → prepared (real G decimal host) file_name args ≡ goes_on t
      → StartsAt args.bootloader t.0
  prepared-StartsAt args t e =
      let (before, loaded, _, kernel, last) =
        prepared-load_kernel (real G decimal host) file_name args t e in
      starts args.bootloader loaded before kernel last
    where
      starts :
          (bootloader : Option String) (loaded before : State G decimal host)
          → on_machine G decimal host
              (load_kernel G decimal host.utf8 host.parse_elf (host.read_file args.kernel))
              before
            ≡ (loaded, ok tt)
          → LoadedLast (real G decimal host) file_name args loaded t bootloader
          → StartsAt bootloader t.0
      starts none loaded before kernel last =
          let (done, is) =
            on_machine-ok
              (load_kernel G decimal host.utf8 host.parse_elf (host.read_file args.kernel)) before
              loaded kernel in
          subst (IsLoaded G decimal) (is ∙ ap (λ s. s.0) last) (
            load_kernel-IsLoaded G decimal host.utf8 host.parse_elf (host.read_file args.kernel)
              before.0 done)
      starts (some path) loaded before kernel last =
          let (done, is) =
            on_machine-ok (load_bootloader G decimal (host.read_file path)) loaded t last in
          subst (λ self. AllVcpus AtSector self.vcpus) is
            (load_bootloader-AtSector G decimal (host.read_file path) loaded.0 done)

  abbrev Placed : State G decimal host → Type 0
  Placed s = AllPlaced G decimal s.0.devices

  on_machine-Placed :
      (f : Action (VirtualMachine G decimal) (Unit {0}))
      → ((self : VirtualMachine G decimal)
          → AllPlaced G decimal self.devices
          → AllPlaced G decimal (f self).0.devices)
      → (s t : State G decimal host) → Placed s
      → on_machine G decimal host f s ≡ (t, ok tt)
      → Placed t
  on_machine-Placed f keep s t p e =
      subst (λ self. AllPlaced G decimal self.devices) (on_machine-ok f s t e).1 (keep s.0 p)

  with_files-ok :
      (x : List MemorySlot × Outcome (VirtualMachine G decimal)) (s : State G decimal host)
      → with_files G decimal host x ≡ ok s
      → x.1 ≡ ok s.0
  with_files-ok (slots, ok self) s e = cc
  with_files-ok (slots, err x) s e = absurd (ground arith)
  with_files-ok (slots, panic) s e = absurd (ground arith)

  new-Placed :
      (cpus : ℕ) (s : State G decimal host) → (real G decimal host).new cpus ≡ ok s → Placed s
  new-Placed cpus s e =
      let is =
        with_files-ok (new host.strerror host.kvm G decimal host.from_ranges host.iterate cpus []) s
          e in
      subst (AllPlaced G decimal)
        (sym
          (new-IsFresh host.strerror host.kvm G decimal host.from_ranges host.iterate cpus [] s.0
            is).0)
        tt

  restoring-Placed :
      (path : String) (s t : State G decimal host)
      → Placed s
      → (real G decimal host).restore_state path s ≡ (t, ok tt)
      → Placed t
  unfolding restore_state with_memory
  restoring-Placed path (self, files) t p e =
      on_machine-Placed
        (restore_state G decimal host.strerror host.M host.regions host.with_regions host.B
          host.regs_layout host.sregs_layout host.fpu_layout host.answers path files)
        (λ self p. AllPlaced-all_see G decimal _ self.devices p) (self, files) t p e

  SameDevices-Placed :
      (self t : VirtualMachine G decimal)
      → AllPlaced G decimal self.devices
      → SameDevices G decimal self t
      → AllPlaced G decimal t.devices
  SameDevices-Placed self t p (mem, same) =
      subst (AllPlaced G decimal) (sym same) (AllPlaced-all_see G decimal mem self.devices p)

  real-Keeps : Keeps (real G decimal host) file_name Placed
  real-Keeps = record {
    new_meets = new-Placed;
    console_keeps =
        on_machine-Placed _
          (λ self. (console_added-Keeps G decimal (host.evt 1) host.stdout self).0);
    block_keeps = λ disk read_only.
        on_machine-Placed _ (λ self.
          (block_added-Keeps G decimal (host.evt 2) (host.open_disk disk) read_only self).0);
    net_keeps = λ a b. on_machine-Placed _ (λ self.
        (net_added-Keeps G decimal (host.evt 3) host.bind host.nonblocking host.parse_addr
          host.getrandom a b self).0);
    fs_keeps = λ tag path read_only. on_machine-Placed _ (λ self.
        (fs_added-Keeps G decimal host.queue_event path (host.exists path)
          (host.create_dir_all path) (host.metadata path) host.queue_events self).0);
    restore_keeps = restoring-Placed;
    kernel_keeps = λ path. on_machine-Placed _ (λ self p.
        SameDevices-Placed self
          (load_kernel G decimal host.utf8 host.parse_elf (host.read_file path) self).0 p
          (load_kernel-devices G decimal host.utf8 host.parse_elf (host.read_file path) self));
    bootloader_keeps = λ path. on_machine-Placed _ (λ self p.
        SameDevices-Placed self (load_bootloader G decimal (host.read_file path) self).0 p
          (load_bootloader-devices G decimal (host.read_file path) self));
  }

  -- Whatever the arguments, the answers of the host and the state that was restored: every device of a
  -- machine that main gets to run stands in the window of its kind.
  pub prepared-AllPlaced :
      (args : Args) (t : State G decimal host)
      → prepared (real G decimal host) file_name args ≡ goes_on t
      → AllPlaced G decimal t.0.devices
  prepared-AllPlaced = prepared-Keeps (real G decimal host) file_name Placed real-Keeps

-- ===== src/Vm/Exit/Dispatch.antt =====
-- Which device an MMIO exit reaches.
use mo_vm.Common.{ℕ, ◌-◌, ◌≡◌, refl, true, false, List, [], ◌∷◌, ◌++◌, arith}
use mo_vm.Error.{Outcome, ok, err, panic}
use mo_vm.Virtio.{VirtioDevice}
use mo_vm.Virtio.Mmio.{VirtioMmioDevice, mmio_read, mmio_write}
use mo_vm.Vm.Exit.{hit, dispatch_read, read_on, dispatch_write, write_on}

module _ {S : Type 0} (D : VirtioDevice S) where
  -- No device of the list has the address in its window.
  abbrev pub AllMiss : ℕ → List (VirtioMmioDevice S) → Type 0
  AllMiss addr [] = Unit {0}
  AllMiss addr (dev ∷ devs) = (hit D addr dev ≡ false) × AllMiss addr devs

  dispatch_write-miss :
      (addr : ℕ) (bytes : List ℕ) (devs : List (VirtioMmioDevice S))
      → AllMiss addr devs
      → dispatch_write D addr bytes devs ≡ (devs, ok tt)
  unfolding dispatch_write
  dispatch_write-miss addr bytes [] m = refl
  dispatch_write-miss addr bytes (dev ∷ devs) (m, ms) =
      ground (arith, m, dispatch_write-miss addr bytes devs ms)

  write_on-ok :
      (x : VirtioMmioDevice S × Outcome (Unit {0})) (devs : List (VirtioMmioDevice S))
      → write_on D x devs (devs, ok tt) ≡ (x.0 ∷ devs, elim x.1 [ panic ↦ panic | _ ↦ ok tt ])
  unfolding write_on
  write_on-ok (dev, ok tt) devs = refl
  write_on-ok (dev, err e) devs = refl
  write_on-ok (dev, panic) devs = refl

  -- A write to an address in the window of one device only is that device's write at its offset, whose
  -- error is dropped and whose panic is not, and leaves every other device as it was.
  pub dispatch_write-mmio_write :
      (addr : ℕ) (bytes : List ℕ) (pre : List (VirtioMmioDevice S)) (dev : VirtioMmioDevice S)
      (post : List (VirtioMmioDevice S))
      → hit D addr dev ≡ true
      → AllMiss addr pre
      → AllMiss addr post
      → let (dev', r) = mmio_write D (addr - dev.base_addr) bytes dev in
        dispatch_write D addr bytes (pre ++ dev ∷ post)
        ≡ (pre ++ dev' ∷ post, elim r [ panic ↦ panic | _ ↦ ok tt ])
  unfolding dispatch_write
  dispatch_write-mmio_write addr bytes [] dev post h m n = ground (
    arith,
    h,
    dispatch_write-miss addr bytes post n,
    write_on-ok (mmio_write D (addr - dev.base_addr) bytes dev) post,
  )
  dispatch_write-mmio_write addr bytes (d ∷ pre) dev post h (m, ms) n =
      ground (arith, m, dispatch_write-mmio_write addr bytes pre dev post h ms n)

  dispatch_read-miss :
      (addr : ℕ) (devs : List (VirtioMmioDevice S)) (bytes : List ℕ)
      → AllMiss addr devs
      → dispatch_read D addr devs bytes ≡ (bytes, ok tt)
  unfolding dispatch_read
  dispatch_read-miss addr [] bytes m = refl
  dispatch_read-miss addr (dev ∷ devs) bytes (m, ms) =
      ground (arith, m, dispatch_read-miss addr devs bytes ms)

  read_on-ok :
      (x : List ℕ × Outcome (Unit {0})) (rest : List ℕ → List ℕ × Outcome (Unit {0}))
      → ((bytes : List ℕ) → rest bytes ≡ (bytes, ok tt))
      → read_on D x rest ≡ (x.0, elim x.1 [ panic ↦ panic | _ ↦ ok tt ])
  unfolding read_on
  read_on-ok (bytes, ok tt) rest e = e bytes
  read_on-ok (bytes, err x) rest e = e bytes
  read_on-ok (bytes, panic) rest e = refl

  -- A read at an address in the window of one device only gives that device's bytes at its offset,
  -- drops its error and keeps its panic.
  pub dispatch_read-mmio_read :
      (addr : ℕ) (bytes : List ℕ) (pre : List (VirtioMmioDevice S)) (dev : VirtioMmioDevice S)
      (post : List (VirtioMmioDevice S))
      → hit D addr dev ≡ true
      → AllMiss addr pre
      → AllMiss addr post
      → let (bytes', r) = mmio_read D dev (addr - dev.base_addr) bytes in
        dispatch_read D addr (pre ++ dev ∷ post) bytes
        ≡ (bytes', elim r [ panic ↦ panic | _ ↦ ok tt ])
  unfolding dispatch_read
  dispatch_read-mmio_read addr bytes [] dev post h m n = ground (
    arith,
    h,
    read_on-ok (mmio_read D dev (addr - dev.base_addr) bytes) (dispatch_read D addr post)
        (λ b. dispatch_read-miss addr post b n),
  )
  dispatch_read-mmio_read addr bytes (d ∷ pre) dev post h (m, ms) n =
      ground (arith, m, dispatch_read-mmio_read addr bytes pre dev post h ms n)

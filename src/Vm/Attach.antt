-- ===== src/Vm/Attach.antt =====
-- Where attached devices stand, and which interrupt numbers they get.
use mo_vm.Common.{
  ℕ, suc, zero, ◌+◌, ◌*◌, ◌%◌, ◌^◌, ◌<◌, ◌≡◌, refl, ap, ◌∙◌, subst, sym, ◌⊎◌, String, Bool, true,
  Option, none, some, List, [], ◌∷◌, ◌++◌, get_elem?, arith, leb, ltb, ◌&&◌,
}
use mo_vm.Error.{IoError, Outcome, ok, err, panic}
use mo_vm.GuestMemory.{GuestMemory}
use mo_vm.Virtio.Mmio.{VirtioMmioDevice, new as new_mmio}
use mo_vm.Virtio.Queue.{EventFd}
use mo_vm.Virtio.Console.{Output}
use mo_vm.Virtio.Block.{Opened}
use mo_vm.Virtio.Net.{Socket}
use mo_vm.Virtio.Fs.{Owner}
use mo_vm.Vm.Exit.{hit}
use mo_vm.Vm.{
  Device, console, block, net, fs, dyn_device, VirtualMachine, sees, all_see, allocate_irq, attach,
  boxed, parsed, add_virtio_console, add_virtio_block, add_virtio_net, add_virtio_fs,
}

module _ (G : GuestMemory) (decimal : ℕ → String) where
  -- The kind of a device, by its place among the four windows.
  abbrev pub kind : Device G decimal → ℕ
  kind (console _) = 1
  kind (block _) = 2
  kind (net _) = 3
  kind (fs _) = 4

  -- A device of its kind's window.
  abbrev pub IsPlaced : VirtioMmioDevice (Device G decimal) → Type 0
  IsPlaced dev = (dev.base_addr ≡ kind dev.device * 0x1000) × (dev.size ≡ 0x1000)

  abbrev pub AllPlaced : List (VirtioMmioDevice (Device G decimal)) → Type 0
  AllPlaced [] = Unit {0}
  AllPlaced (dev ∷ devs) = IsPlaced dev × AllPlaced devs

  AllPlaced-append :
      (devs : List (VirtioMmioDevice (Device G decimal)))
      (dev : VirtioMmioDevice (Device G decimal))
      → AllPlaced devs
      → IsPlaced dev
      → AllPlaced (devs ++ (dev ∷ []))
  AllPlaced-append [] dev p q = (q, tt)
  AllPlaced-append (d ∷ devs) dev (p, ps) q = (p, AllPlaced-append devs dev ps q)

  pub AllPlaced-all_see :
      (mem : G.Mem) (devs : List (VirtioMmioDevice (Device G decimal)))
      → AllPlaced devs
      → AllPlaced (all_see G decimal mem devs)
  AllPlaced-all_see mem [] p = tt
  AllPlaced-all_see mem (dev ∷ devs) ((base, size), ps) = (
    (base ∙ ap (λ k. k * 0x1000) (sym (kind-sees dev.device)), size),
    AllPlaced-all_see mem devs ps,
  )
    where
      kind-sees : (d : Device G decimal) → kind (sees G decimal mem d) ≡ kind d
      kind-sees (console s) = refl
      kind-sees (block s) = refl
      kind-sees (net s) = refl
      kind-sees (fs s) = refl

  AllPlaced-get_elem? :
      (devs : List (VirtioMmioDevice (Device G decimal))) (i : ℕ)
      (dev : VirtioMmioDevice (Device G decimal))
      → AllPlaced devs
      → get_elem? devs i ≡ some dev
      → IsPlaced dev
  AllPlaced-get_elem? [] i dev p e = ground arith
  AllPlaced-get_elem? (d ∷ devs) zero dev (p, ps) e = ground (arith, p)
  AllPlaced-get_elem? (d ∷ devs) (suc i) dev (p, ps) e = AllPlaced-get_elem? devs i dev ps e

  -- `t` is what `n` calls of the attachment methods make of `self`, whether they succeed or fail.
  pub data Attaches (self : VirtualMachine G decimal) : ℕ → VirtualMachine G decimal → Type 0 where
    unattached : Attaches self 0 self
    console_added :
        (n : ℕ) (t : VirtualMachine G decimal) (evt : Option EventFd) (stdout : Output)
        → Attaches self n t
        → Attaches self (suc n) (add_virtio_console G decimal evt stdout t).0
    block_added :
        (n : ℕ) (t : VirtualMachine G decimal) (evt : Option EventFd) (open' : Bool → Opened G)
        (read_only : Bool)
        → Attaches self n t
        → Attaches self (suc n) (add_virtio_block G decimal evt open' read_only t).0
    net_added :
        (n : ℕ) (t : VirtualMachine G decimal) (evt : Option EventFd)
        (bind : String → Socket ⊎ String) (nonblocking : Option String)
        (parse : String → Option String) (getrandom : List ℕ ⊎ String)
        (local_addr peer_addr : String)
        → Attaches self n t
        → Attaches self
            (suc n)
            (add_virtio_net G decimal evt bind nonblocking parse getrandom local_addr peer_addr t).0
    fs_added :
        (n : ℕ) (t : VirtualMachine G decimal) (event : Outcome EventFd) (shared_dir : String)
        (root_exists : Bool) (created : Outcome (Unit {0})) (metadata : Outcome Owner)
        (events : Option IoError)
        → Attaches self n t
        → Attaches self
            (suc n)
            (add_virtio_fs G decimal event shared_dir root_exists created metadata events t).0

  -- What every call keeps: the places, and the count of the numbers given out.
  abbrev pub Keeps : VirtualMachine G decimal → VirtualMachine G decimal → Type 0
  Keeps s t = (AllPlaced s.devices → AllPlaced t.devices) × (t.next_irq ≡ (s.next_irq + 1) % 2 ^ 32)

  attach-Keeps :
      (base : ℕ) (s : VirtualMachine G decimal) (r : Outcome (Device G decimal))
      → ((device : Device G decimal) → r ≡ ok device → base ≡ kind device * 0x1000)
      → (AllPlaced s.devices → AllPlaced (attach G decimal base (s, r)).0.devices)
        × ((attach G decimal base (s, r)).0.next_irq ≡ s.next_irq)
  unfolding attach new_mmio
  attach-Keeps base s (ok device) h = (
    (λ p.
        AllPlaced-append s.devices
          (record { device = device; base_addr = base; size = 0x1000; queue_sel = 0 }) p
          (h device refl, refl)),
    refl,
  )
  attach-Keeps base s (err e) h = ((λ p. p), refl)
  attach-Keeps base s panic h = ((λ p. p), refl)

  boxed-kind :
      {S : Type 0} (k : ℕ) (wrap : S → Device G decimal) (r : Outcome S)
      → ((s : S) → kind (wrap s) ≡ k)
      → (device : Device G decimal) → boxed G decimal wrap r ≡ ok device
      → k * 0x1000 ≡ kind device * 0x1000
  boxed-kind k wrap (ok s) h device e = ground (arith, h s)
  boxed-kind k wrap (err x) h device e = ground arith
  boxed-kind k wrap panic h device e = ground arith

  pub console_added-Keeps :
      (evt : Option EventFd) (stdout : Output) (s : VirtualMachine G decimal)
      → Keeps s (add_virtio_console G decimal evt stdout s).0
  unfolding add_virtio_console
  console_added-Keeps evt stdout s =
      attach-Keeps 0x1000 (allocate_irq G decimal s).0 _ (boxed-kind 1 console (ok _) (λ s. refl))

  pub block_added-Keeps :
      (evt : Option EventFd) (open' : Bool → Opened G) (read_only : Bool)
      (s : VirtualMachine G decimal)
      → Keeps s (add_virtio_block G decimal evt open' read_only s).0
  unfolding add_virtio_block
  block_added-Keeps evt open' read_only s =
      attach-Keeps 0x2000 (allocate_irq G decimal s).0 _ (boxed-kind 2 block _ (λ s. refl))

  parsed-Keeps :
      (what : String) (r : Option String) (s s' : VirtualMachine G decimal)
      (rest : VirtualMachine G decimal × Outcome (Unit {0}))
      → (AllPlaced s.devices → AllPlaced s'.devices)
      → s'.next_irq ≡ (s.next_irq + 1) % 2 ^ 32
      → Keeps s rest.0
      → Keeps s (parsed G decimal what r s' rest).0
  unfolding parsed
  parsed-Keeps what none s s' rest p q k = k
  parsed-Keeps what (some e) s s' rest p q k = (p, q)

  pub net_added-Keeps :
      (evt : Option EventFd) (bind : String → Socket ⊎ String) (nonblocking : Option String)
      (parse : String → Option String) (getrandom : List ℕ ⊎ String) (local_addr peer_addr : String)
      (s : VirtualMachine G decimal)
      → Keeps s
          (add_virtio_net G decimal evt bind nonblocking parse getrandom local_addr peer_addr s).0
  unfolding add_virtio_net
  net_added-Keeps evt bind nonblocking parse getrandom local_addr peer_addr s =
      parsed-Keeps "Invalid local address: " (parse local_addr) s _ _ (λ p. p) refl
        (parsed-Keeps "Invalid peer address: " (parse peer_addr) s _ _ (λ p. p) refl
          (attach-Keeps 0x3000 (allocate_irq G decimal s).0 _ (boxed-kind 3 net _ (λ s. refl))))

  pub fs_added-Keeps :
      (event : Outcome EventFd) (shared_dir : String) (root_exists : Bool)
      (created : Outcome (Unit {0})) (metadata : Outcome Owner) (events : Option IoError)
      (s : VirtualMachine G decimal)
      → Keeps s (add_virtio_fs G decimal event shared_dir root_exists created metadata events s).0
  unfolding add_virtio_fs
  fs_added-Keeps (ok evt) shared_dir root_exists created metadata events s =
      attach-Keeps 0x4000 (allocate_irq G decimal s).0 _ (boxed-kind 4 fs _ (λ s. refl))
  fs_added-Keeps (err e) shared_dir root_exists created metadata events s = ((λ p. p), refl)
  fs_added-Keeps panic shared_dir root_exists created metadata events s = ((λ p. p), refl)

  -- From a machine whose devices stand in the windows of their kinds, any calls of the attachment
  -- methods keep it so, and each call, failing or not, takes one interrupt number.
  pub Attaches-AllPlaced :
      (self t : VirtualMachine G decimal) (n : ℕ)
      → self.next_irq < 2 ^ 32
      → AllPlaced self.devices
      → Attaches self n t
      → AllPlaced t.devices × (t.next_irq ≡ (self.next_irq + n) % 2 ^ 32)
  Attaches-AllPlaced self t n lt p unattached = (p, omega arith)
  Attaches-AllPlaced self t n lt p (console_added m u evt stdout a) =
      let (q, e) = Attaches-AllPlaced self u m lt p a in
      let k = console_added-Keeps evt stdout u in (k.0 q, omega (arith, e, k.1))
  Attaches-AllPlaced self t n lt p (block_added m u evt open' read_only a) =
      let (q, e) = Attaches-AllPlaced self u m lt p a in
      let k = block_added-Keeps evt open' read_only u in (k.0 q, omega (arith, e, k.1))
  Attaches-AllPlaced self t n lt p
        (net_added m u evt bind nonblocking parse getrandom local_addr peer_addr a) =
      let (q, e) = Attaches-AllPlaced self u m lt p a in
      let k = net_added-Keeps evt bind nonblocking parse getrandom local_addr peer_addr u in
      (k.0 q, omega (arith, e, k.1))
  Attaches-AllPlaced self t n lt p
        (fs_added m u event shared_dir root_exists created metadata events a) =
      let (q, e) = Attaches-AllPlaced self u m lt p a in
      let k = fs_added-Keeps event shared_dir root_exists created metadata events u in
      (k.0 q, omega (arith, e, k.1))

  -- In a machine that was made by attaching devices to one without any, two devices whose windows
  -- share an address are of the same kind.
  pub Attaches-kind :
      (self t : VirtualMachine G decimal) (n i j addr : ℕ)
      (d e : VirtioMmioDevice (Device G decimal))
      → self.next_irq < 2 ^ 32
      → self.devices ≡ []
      → Attaches self n t
      → get_elem? t.devices i ≡ some d
      → get_elem? t.devices j ≡ some e
      → hit (dyn_device G decimal) addr d ≡ true
      → hit (dyn_device G decimal) addr e ≡ true
      → kind d.device ≡ kind e.device
  Attaches-kind self t n i j addr d e lt empty a p q h k =
      let (placed, _) = Attaches-AllPlaced self t n lt (subst AllPlaced (sym empty) tt) a in
      let x = AllPlaced-get_elem? t.devices i d placed p in
      let y = AllPlaced-get_elem? t.devices j e placed q in
      same_window (kind d.device) (kind e.device) addr d.base_addr d.size e.base_addr e.size x y h k
    where
      same_window :
          (m n addr a s b t : ℕ)
          → (a ≡ m * 0x1000) × (s ≡ 0x1000)
          → (b ≡ n * 0x1000) × (t ≡ 0x1000)
          → (leb a addr && ltb addr ((a + s) % 2 ^ 64)) ≡ true
          → (leb b addr && ltb addr ((b + t) % 2 ^ 64)) ≡ true
          → m ≡ n
      same_window m n addr a s b t x y h k = ground arith

-- ===== src/Startup/Order.antt =====
-- What the machine is when `main` runs it.
use mo_vm.Common.{◌≡◌, refl, subst, false, arith, String, Option, none, some, List, [], ◌∷◌}
use mo_vm.Error.{Outcome, ok, err, panic}
use mo_vm.Startup.{
  Args, Machine, Progress, goes_on, returns, exits, panics, ◌>>=◌, question, or_exit, if_some, tag,
  with_peer, add_shares, created, attached, prepared,
}

-- What a step that goes on went through.
>>=-goes_on :
    {S : Type 0} (p : Progress S) (f : S → Progress S) {t : S}
    → (p >>= f) ≡ goes_on t
    → (s : S) × (p ≡ goes_on s) × (f s ≡ goes_on t)
>>=-goes_on (goes_on s) f e = (s, refl, e)
>>=-goes_on (returns s x) f e = absurd (ground arith)
>>=-goes_on (exits n) f e = absurd (ground arith)
>>=-goes_on panics f e = absurd (ground arith)

goes_on_inj : {S : Type 0} (s t : S) → goes_on s ≡ goes_on t → s ≡ t
goes_on_inj s t e = cc

or_exit-goes_on :
    {S : Type 0} (r : S × Outcome (Unit {0})) {t : S} → or_exit r ≡ goes_on t → r ≡ (t, ok tt)
or_exit-goes_on (s, ok tt) e = cc
or_exit-goes_on (s, err x) e = absurd (ground arith)
or_exit-goes_on (s, panic) e = absurd (ground arith)

question-goes_on :
    {S : Type 0} (r : S × Outcome (Unit {0})) {t : S} → question r ≡ goes_on t → r ≡ (t, ok tt)
question-goes_on (s, ok tt) e = cc
question-goes_on (s, err x) e = absurd (ground arith)
question-goes_on (s, panic) e = absurd (ground arith)

module _ (V : Machine) (file_name : String → Option String) where
  -- The last thing that is done to the machine before it runs: the load of the boot loader, if one is given, or else
  -- of the kernel.
  abbrev pub LoadedLast : Args → V.State → V.State → Option String → Type 0
  LoadedLast args s t none = s ≡ t
  LoadedLast args s t (some path) = V.load_bootloader path s ≡ (t, ok tt)

  -- If `main` gets to run a machine, then whatever it attached and restored before, it loaded the kernel into it and
  -- then the boot loader, if one is given, both with success, and did nothing to it after that.
  pub prepared-load_kernel :
      (args : Args) (t : V.State)
      → prepared V file_name args ≡ goes_on t
      → (before loaded : V.State) × (attached V file_name args ≡ goes_on before)
        × (V.load_kernel args.kernel before ≡ (loaded, ok tt))
        × LoadedLast args loaded t args.bootloader
  unfolding prepared
  prepared-load_kernel args t e =
      let (loaded, e', last) =
        >>=-goes_on (attached V file_name args >>= λ s. or_exit (V.load_kernel args.kernel s))
          (if_some args.bootloader (λ path s. or_exit (V.load_bootloader path s))) e in
      let (before, first, kernel) =
        >>=-goes_on (attached V file_name args) (λ s. or_exit (V.load_kernel args.kernel s)) e' in
      (
        before,
        loaded,
        first,
        or_exit-goes_on (V.load_kernel args.kernel before) kernel,
        loaded_last args.bootloader loaded last,
      )
    where
      loaded_last :
          (bootloader : Option String) (s : V.State)
          → if_some bootloader (λ path s. or_exit (V.load_bootloader path s)) s ≡ goes_on t
          → LoadedLast args s t bootloader
      loaded_last none s last = cc
      loaded_last (some path) s last = or_exit-goes_on (V.load_bootloader path s) last

  -- A predicate that a new machine meets and that every method keeps when it succeeds.
  pub record Keeps (P : V.State → Type 0) : Type 0 where
    pub new_meets : (cpus : _) (s : V.State) → V.new cpus ≡ ok s → P s
    pub console_keeps : (s t : V.State) → P s → V.add_virtio_console s ≡ (t, ok tt) → P t
    pub block_keeps :
        (disk : String) (read_only : _) (s t : V.State)
        → P s
        → V.add_virtio_block disk read_only s ≡ (t, ok tt)
        → P t
    pub net_keeps : (a b : String) (s t : V.State) → P s → V.add_virtio_net a b s ≡ (t, ok tt) → P t
    pub fs_keeps :
        (tag path : String) (read_only : _) (s t : V.State)
        → P s
        → V.add_virtio_fs tag path read_only s ≡ (t, ok tt)
        → P t
    pub restore_keeps :
        (path : String) (s t : V.State) → P s → V.restore_state path s ≡ (t, ok tt) → P t
    pub kernel_keeps :
        (path : String) (s t : V.State) → P s → V.load_kernel path s ≡ (t, ok tt) → P t
    pub bootloader_keeps :
        (path : String) (s t : V.State) → P s → V.load_bootloader path s ≡ (t, ok tt) → P t

  module _ (P : V.State → Type 0) (keeps : Keeps P) where
    -- `p` goes on only to machines that meet the predicate.
    abbrev Meets : Progress V.State → Type 0
    Meets p = (t : V.State) → p ≡ goes_on t → P t

    Meets->>= :
        (p : Progress V.State) (f : V.State → Progress V.State)
        → Meets p
        → ((s : V.State) → P s → Meets (f s))
        → Meets (p >>= f)
    Meets->>= p f meets next t e =
        let (s, first, e') = >>=-goes_on p f e in next s (meets s first) t e'

    Meets-question :
        (r : V.State × Outcome (Unit {0}))
        → ((t : V.State) → r ≡ (t, ok tt) → P t)
        → Meets (question r)
    Meets-question r keep t e = keep t (question-goes_on r e)

    Meets-or_exit :
        (r : V.State × Outcome (Unit {0}))
        → ((t : V.State) → r ≡ (t, ok tt) → P t)
        → Meets (or_exit r)
    Meets-or_exit r keep t e = keep t (or_exit-goes_on r e)

    Meets-if_some :
        {A : Type 0} (o : Option A) (f : A → V.State → Progress V.State) (s : V.State)
        → P s
        → ((a : A) → Meets (f a s))
        → Meets (if_some o f s)
    Meets-if_some none f s p next t e = subst P (goes_on_inj s t e) p
    Meets-if_some (some a) f s p next t e = next a t e

    Meets-created :
        (r : Outcome V.State) → ((s : V.State) → r ≡ ok s → P s) → Meets (created V file_name r)
    Meets-created (ok s) meets t e = subst P (goes_on_inj s t e) (meets s refl)
    Meets-created (err x) meets t e = absurd (ground arith)
    Meets-created panic meets t e = absurd (ground arith)

    Meets-with_peer :
        (peer : Option String) (addr : String) (s : V.State)
        → P s
        → Meets (with_peer V file_name peer addr s)
    Meets-with_peer none addr s p t e = absurd (ground arith)
    Meets-with_peer (some peer) addr s p t e =
        Meets-question (V.add_virtio_net addr peer s) (λ t. keeps.net_keeps addr peer s t p) t e

    Meets-add_shares :
        (shares : List String) (s : V.State) → P s → Meets (add_shares V file_name shares s)
    unfolding add_shares
    Meets-add_shares [] s p t e = subst P (goes_on_inj s t e) p
    Meets-add_shares (share ∷ shares) s p t e =
        Meets->>= (question (V.add_virtio_fs (tag V file_name share) share false s))
          (add_shares V file_name shares)
          (Meets-question (V.add_virtio_fs (tag V file_name share) share false s)
            (λ t. keeps.fs_keeps (tag V file_name share) share false s t p))
          (Meets-add_shares shares) t e

    attached-Meets : (args : Args) → Meets (attached V file_name args)
    unfolding attached
    attached-Meets args =
        Meets->>= _ _
          (Meets->>= _ _
            (Meets->>= _ _
              (Meets->>= _ _
                (Meets->>= _ _ (Meets-created (V.new args.cpus) (keeps.new_meets args.cpus))
                  (λ s p. Meets-question _ (λ t. keeps.console_keeps s t p)))
                (λ s p.
                  Meets-if_some args.disk _ s p
                    (λ disk. Meets-question _ (λ t. keeps.block_keeps disk args.read_only s t p))))
              (λ s p. Meets-if_some args.net _ s p (λ addr. Meets-with_peer args.peer addr s p)))
            (λ s p. Meets-add_shares args.share s p))
          (λ s p.
            Meets-if_some args.restore_state _ s p
              (λ path. Meets-question _ (λ t. keeps.restore_keeps path s t p)))

    -- A predicate that a new machine meets and that every method keeps holds of the machine that `main` runs.
    pub prepared-Keeps : (args : Args) (t : V.State) → prepared V file_name args ≡ goes_on t → P t
    unfolding prepared
    prepared-Keeps args =
        Meets->>= _ _
          (Meets->>= _ _ (attached-Meets args)
            (λ s p. Meets-or_exit _ (λ t. keeps.kernel_keeps args.kernel s t p)))
          (λ s p.
            Meets-if_some args.bootloader _ s p
              (λ path. Meets-or_exit _ (λ t. keeps.bootloader_keeps path s t p)))

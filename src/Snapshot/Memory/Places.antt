-- ===== src/Snapshot/Memory/Places.antt =====
-- Writing saved regions back moves no region, however it ends.
use mo_vm.Common.{
  ℕ, suc, ◌+◌, ◌*◌, ◌%◌, ◌^◌, ◌≡◌, ◌≤◌, ◌⊎◌, arith, ap, refl, sym, subst, ◌∙◌, String, Option-cases,
  inl, inr, List, [], ◌∷◌, ◌++◌,
}
use mo_vm.Error.{Outcome, ok, err, panic}
use mo_vm.Error.Action.{after, after-keeps}
use mo_vm.Snapshot.{MemoryRegion}
use mo_vm.Snapshot.Memory.{
  Mapping, write_chunks, in_place, onto, fits_region, restore_region, restore_memory,
}
use mo_vm.Snapshot.Memory.Restored.{SameLayout}

module _ (M : Mapping) where
  abbrev SamePlace : M.Region → M.Region → Type 0
  SamePlace r w = (M.start_addr w ≡ M.start_addr r) × (M.len w ≡ M.len r)

  write_chunks-SamePlace :
      (guest_addr offset i : ℕ) (parts : List (List ℕ)) (r : M.Region)
      → SamePlace r (write_chunks M guest_addr offset i parts r).0
  unfolding write_chunks
  write_chunks-SamePlace guest_addr offset i [] r = (refl, refl)
  write_chunks-SamePlace guest_addr offset i (chunk ∷ parts) r =
      after-keeps (SamePlace r) _ _ (M.write_place r chunk ((offset + i * 4096) % 2 ^ 64))
        λ _ w (s, l).
          let (s', l') = write_chunks-SamePlace guest_addr offset (suc i) parts w in
          (s' ∙ s, l' ∙ l)

  SameLayout-refl : (ws : List M.Region) → SameLayout M ws ws
  SameLayout-refl [] = tt
  SameLayout-refl (w ∷ ws) = (refl, refl, SameLayout-refl ws)

  pub SameLayout-trans :
      (xs ys zs : List M.Region) → SameLayout M xs ys → SameLayout M ys zs → SameLayout M xs zs
  SameLayout-trans [] [] [] p q = tt
  SameLayout-trans (x ∷ xs) (y ∷ ys) (z ∷ zs) (a, b, p) (c, d, q) =
      (c ∙ a, d ∙ b, SameLayout-trans xs ys zs p q)
  SameLayout-trans [] (y ∷ ys) zs p q = absurd p
  SameLayout-trans (x ∷ xs) [] zs p q = absurd p
  SameLayout-trans [] [] (z ∷ zs) p q = absurd q
  SameLayout-trans (x ∷ xs) (y ∷ ys) [] p q = absurd q

  pub SameLayout-sym : (xs ys : List M.Region) → SameLayout M xs ys → SameLayout M ys xs
  SameLayout-sym [] [] p = tt
  SameLayout-sym (x ∷ xs) (y ∷ ys) (a, b, p) = (sym a, sym b, SameLayout-sym xs ys p)
  SameLayout-sym [] (y ∷ ys) p = absurd p
  SameLayout-sym (x ∷ xs) [] p = absurd p

  SameLayout-set :
      (before : List M.Region) (r w : M.Region) (behind : List M.Region)
      → SamePlace r w
      → SameLayout M (before ++ (r ∷ behind)) (before ++ (w ∷ behind))
  SameLayout-set [] r w behind (s, l) = (s, l, SameLayout-refl behind)
  SameLayout-set (b ∷ before) r w behind p = (refl, refl, SameLayout-set before r w behind p)

  module _ (decimal : ℕ → String) where
    onto-SamePlace :
        (o : Outcome (Unit {0})) (saved : MemoryRegion) (r : M.Region)
        → SamePlace r (onto M o saved r).0
    unfolding onto
    onto-SamePlace (ok _) saved r = write_chunks-SamePlace _ _ _ _ r
    onto-SamePlace (err e) saved r = (refl, refl)
    onto-SamePlace panic saved r = (refl, refl)

    restore_region-SameLayout :
        (saved : MemoryRegion) (ws : List M.Region)
        → SameLayout M ws (restore_region M decimal saved ws).0
    unfolding restore_region in_place
    restore_region-SameLayout saved ws = elim (Option-cases (M.find_region ws saved.guest_addr)) [
      | inl missing ↦ rw (missing, restore_region) (SameLayout-refl ws)
      | inr ((before, r, behind), found) ↦
          let (split, _, _) = M.find_some ws before r behind saved.guest_addr found in
          rw (found, restore_region)
            (subst
              (λ l.
                SameLayout M l
                  (in_place M before behind (onto M (fits_region M decimal saved r) saved r)).0)
              (sym split)
              (SameLayout-set before r _ behind
                (onto-SamePlace (fits_region M decimal saved r) saved r)))
    ]

    -- Whatever regions a snapshot names and however writing them back ends, the regions of the memory
    -- stay where they are, each with its size.
    pub restore_memory-SameLayout :
        (regions : List MemoryRegion) (ws : List M.Region)
        → SameLayout M ws (restore_memory M decimal regions ws).0
    unfolding restore_memory
    restore_memory-SameLayout [] ws = SameLayout-refl ws
    restore_memory-SameLayout (saved ∷ regions) ws =
        after-keeps (SameLayout M ws) (restore_region M decimal saved ws) _
          (restore_region-SameLayout saved ws)
          λ _ vs p. SameLayout-trans ws vs _ p (restore_memory-SameLayout regions vs)

  -- Some region of the memory holds the addresses that the saved region says it has.
  abbrev pub Fits : MemoryRegion → List M.Region → Type 0
  Fits saved [] = ⊥
  Fits saved (w ∷ ws) =
      ((M.start_addr w ≤ saved.guest_addr)
        × (saved.guest_addr + saved.size ≤ M.start_addr w + M.len w))
      ⊎ Fits saved ws

  abbrev pub AllFit : List MemoryRegion → List M.Region → Type 0
  AllFit [] ws = Unit {0}
  AllFit (saved ∷ regions) ws = Fits saved ws × AllFit regions ws

  Fits-at :
      (saved : MemoryRegion) (before : List M.Region) (r : M.Region) (behind : List M.Region)
      → M.start_addr r ≤ saved.guest_addr
      → saved.guest_addr + saved.size ≤ M.start_addr r + M.len r
      → Fits saved (before ++ (r ∷ behind))
  Fits-at saved [] r behind h k = inl (h, k)
  Fits-at saved (b ∷ before) r behind h k = inr (Fits-at saved before r behind h k)

  Fits-SameLayout :
      (saved : MemoryRegion) (ws vs : List M.Region)
      → SameLayout M ws vs
      → Fits saved vs
      → Fits saved ws
  Fits-SameLayout saved [] [] p f = f
  Fits-SameLayout saved [] (v ∷ vs) p f = absurd p
  Fits-SameLayout saved (w ∷ ws) [] p f = absurd f
  Fits-SameLayout saved (w ∷ ws) (v ∷ vs) (s, l, p) (inl (h, k)) = inl (omega arith, omega arith)
  Fits-SameLayout saved (w ∷ ws) (v ∷ vs) (s, l, p) (inr f) = inr (Fits-SameLayout saved ws vs p f)

  AllFit-SameLayout :
      (regions : List MemoryRegion) (ws vs : List M.Region)
      → SameLayout M ws vs
      → AllFit regions vs
      → AllFit regions ws
  AllFit-SameLayout [] ws vs p f = tt
  AllFit-SameLayout (saved ∷ regions) ws vs p (f, fs) =
      (Fits-SameLayout saved ws vs p f, AllFit-SameLayout regions ws vs p fs)

  module _ (decimal : ℕ → String) where
    fits_region-inside :
        (saved : MemoryRegion) (r : M.Region)
        → fits_region M decimal saved r ≡ ok tt
        → (M.start_addr r ≤ saved.guest_addr)
          × (saved.guest_addr + saved.size ≤ M.start_addr r + M.len r)
    unfolding fits_region
    fits_region-inside saved r e = (ground arith, ground arith)

    onto-ok :
        (o : Outcome (Unit {0})) (saved : MemoryRegion) (r : M.Region)
        → (onto M o saved r).1 ≡ ok tt
        → o ≡ ok tt
    unfolding onto
    onto-ok (ok _) saved r e = refl
    onto-ok (err x) saved r e = absurd (ground arith)
    onto-ok panic saved r e = absurd (ground arith)

    restore_region-Fits :
        (saved : MemoryRegion) (ws : List M.Region)
        → (restore_region M decimal saved ws).1 ≡ ok tt
        → Fits saved ws
    unfolding restore_region in_place
    restore_region-Fits saved ws e = elim (Option-cases (M.find_region ws saved.guest_addr)) [
      | inl missing ↦ absurd (ground arith)
      | inr ((before, r, behind), found) ↦
          let (split, _, _) = M.find_some ws before r behind saved.guest_addr found in
          let taken : restore_region M decimal saved ws
              ≡ in_place M before behind (onto M (fits_region M decimal saved r) saved r) =
            rw (found, restore_region) refl in
          let done : (onto M (fits_region M decimal saved r) saved r).1 ≡ ok tt =
            ap (λ x. x.1) (sym taken) ∙ e in
          let (h, k) =
            fits_region-inside saved r (onto-ok (fits_region M decimal saved r) saved r done) in
          subst (Fits saved) (sym split) (Fits-at saved before r behind h k)
    ]

    after-ok :
        (x : List M.Region × Outcome (Unit {0}))
        (f : List M.Region → List M.Region × Outcome (Unit {0}))
        → (after x (λ _. f)).1 ≡ ok tt
        → (x.1 ≡ ok tt) × ((f x.0).1 ≡ ok tt)
    after-ok (ws, ok _) f e = (refl, e)
    after-ok (ws, err x) f e = absurd (ground arith)
    after-ok (ws, panic) f e = absurd (ground arith)

    -- If writing the regions of a snapshot back succeeds, the addresses of each of them, by the
    -- address and the size that it states, lie within one region of the memory as it was before the
    -- call: a snapshot with any region that does not fit is not restored with success.
    pub restore_memory-AllFit :
        (regions : List MemoryRegion) (ws : List M.Region)
        → (restore_memory M decimal regions ws).1 ≡ ok tt
        → AllFit regions ws
    unfolding restore_memory
    restore_memory-AllFit [] ws e = tt
    restore_memory-AllFit (saved ∷ regions) ws e =
        let (first, others) =
          after-ok (restore_region M decimal saved ws) (restore_memory M decimal regions) e in
        (
          restore_region-Fits saved ws first,
          AllFit-SameLayout regions ws (restore_region M decimal saved ws).0
              (restore_region-SameLayout decimal saved ws)
              (restore_memory-AllFit regions (restore_region M decimal saved ws).0 others),
        )

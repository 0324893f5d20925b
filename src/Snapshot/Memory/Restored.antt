-- ===== src/Snapshot/Memory/Restored.antt =====
-- What writing saved regions back makes of a memory of the same layout.
use mo_vm.Common.{
  ℕ, ◌+◌, ◌-◌, ◌*◌, ◌^◌, ◌≤◌, ◌<◌, ◌≡◌, refl, ap, sym, ◌∙◌, subst, String, some, Option-cases, inl,
  inr, List, [], ◌∷◌, ◌++◌, length, map, chunks, splice_whole, arith,
}
use mathlib.Core.List.{append_assoc}
use mo_vm.Error.{ok}
use mo_vm.Error.Action.{after}
use mo_vm.Snapshot.{MemoryRegion}
use mo_vm.Snapshot.Memory.{
  Mapping, in_place, onto, fits_region, save_memory, restore_region, restore_memory,
}
use mo_vm.Snapshot.Memory.Saved.{saved_of, save_memory-saved_of, write_chunks-splice}

module _ (M : Mapping) where
  -- The regions stand one after the other from an address on, none is empty, and all end below 2^64.
  abbrev pub IsLaidOut : ℕ → List M.Region → Type 0
  IsLaidOut from [] = Unit {0}
  IsLaidOut from (r ∷ rs) =
      (from ≤ M.start_addr r)
      × (0 < M.len r)
      × (M.start_addr r + M.len r < 2 ^ 64)
      × IsLaidOut (M.start_addr r + M.len r) rs

  -- The second memory has regions of the same places.
  abbrev pub SameLayout : List M.Region → List M.Region → Type 0
  SameLayout [] [] = Unit {0}
  SameLayout (r ∷ rs) (w ∷ ws) =
      (M.start_addr w ≡ M.start_addr r) × (M.len w ≡ M.len r) × SameLayout rs ws
  SameLayout _ _ = ⊥

  -- And holds the same bytes there.
  abbrev pub SameBytes : List M.Region → List M.Region → Type 0
  SameBytes rs ws = (SameLayout rs ws) × (map M.contents ws ≡ map M.contents rs)

  abbrev Holds : M.Region → ℕ → Type 0
  Holds r a = (M.start_addr r ≤ a) × (a < M.start_addr r + M.len r)

  -- No region of the list ends above the address.
  abbrev AllBelow : ℕ → List M.Region → Type 0
  AllBelow a [] = Unit {0}
  AllBelow a (r ∷ rs) = (M.start_addr r + M.len r ≤ a) × AllBelow a rs

  AllBelow-mono : (a b : ℕ) (rs : List M.Region) → a ≤ b → AllBelow a rs → AllBelow b rs
  AllBelow-mono a b [] h p = tt
  AllBelow-mono a b (r ∷ rs) h (p, ps) = (omega arith, AllBelow-mono a b rs h ps)

  AllBelow-append :
      (a : ℕ) (rs : List M.Region) (r : M.Region)
      → AllBelow a rs
      → M.start_addr r + M.len r ≤ a
      → AllBelow a (rs ++ (r ∷ []))
  AllBelow-append a [] r p q = (q, tt)
  AllBelow-append a (s ∷ rs) r (p, ps) q = (p, AllBelow-append a rs r ps q)

  laid_out_above :
      (from a : ℕ) (before : List M.Region) (r : M.Region) (behind : List M.Region)
      → IsLaidOut from (before ++ (r ∷ behind))
      → a < from
      → Holds r a
      → ⊥
  laid_out_above from a [] r behind (p, _, _, _) h (q, _) = omega arith
  laid_out_above from a (b ∷ before) r behind (p, q, _, ps) h holds =
      laid_out_above (M.start_addr b + M.len b) a before r behind ps (omega arith) holds

  -- The region that holds an address in such a memory is the one region that does.
  split_unique :
      (a : ℕ) (below : List M.Region) (w : M.Region) (ws before : List M.Region) (r : M.Region)
      (behind : List M.Region)
      → below ++ (w ∷ ws) ≡ before ++ (r ∷ behind)
      → AllBelow a below
      → IsLaidOut (M.start_addr w + M.len w) ws
      → Holds w a
      → Holds r a
      → (before ≡ below) × (r ≡ w) × (behind ≡ ws)
  split_unique a [] w ws [] r behind e p q h k = (refl, cc, cc)
  split_unique a [] w ws (b ∷ before) r behind e p q h k =
      let e' : ws ≡ before ++ (r ∷ behind) = cc in
      absurd (
        laid_out_above (M.start_addr w + M.len w) a before r behind
          (subst (IsLaidOut (M.start_addr w + M.len w)) e' q) h.1 k)
  split_unique a (b ∷ below) w ws [] r behind e (p, ps) q h k =
      let e' : b ≡ r = cc in absurd (omega (arith, ap M.start_addr e', ap M.len e'))
  split_unique a (b ∷ below) w ws (c ∷ before) r behind e (p, ps) q h k =
      let e' : below ++ (w ∷ ws) ≡ before ++ (r ∷ behind) = cc in
      let e0 : b ≡ c = cc in
      let (e1, e2, e3) = split_unique a below w ws before r behind e' ps q h k in (cc, e2, e3)

  find_region_unique :
      (a : ℕ) (below : List M.Region) (w : M.Region) (ws : List M.Region)
      → AllBelow a below
      → IsLaidOut (M.start_addr w + M.len w) ws
      → Holds w a
      → M.find_region (below ++ (w ∷ ws)) a ≡ some (below, w, ws)
  find_region_unique a below w ws p q h =
      elim (Option-cases (M.find_region (below ++ (w ∷ ws)) a)) [
        | inl missing ↦ absurd (M.find_none below w ws a h.0 h.1 missing)
        | inr ((before, r, behind), found) ↦
            let (e, lo, hi) = M.find_some (below ++ (w ∷ ws)) before r behind a found in
            let (e1, e2, e3) = split_unique a below w ws before r behind e p q h (lo, hi) in
            rw found (cc)
      ]

  SameLayout-IsLaidOut :
      (a b : ℕ) (rs ws : List M.Region) → a ≡ b → IsLaidOut b rs → SameLayout rs ws → IsLaidOut a ws
  SameLayout-IsLaidOut a b [] [] e p q = tt
  SameLayout-IsLaidOut a b [] (w ∷ ws) e p q = absurd q
  SameLayout-IsLaidOut a b (r ∷ rs) [] e p q = absurd q
  SameLayout-IsLaidOut a b (r ∷ rs) (w ∷ ws) e (lo, pos, top, ps) (s, l, qs) = (
    omega arith,
    omega arith,
    omega arith,
    SameLayout-IsLaidOut (M.start_addr w + M.len w) (M.start_addr r + M.len r) rs ws (omega arith)
        ps qs,
  )

  module _ (decimal : ℕ → String) where
    fits_same :
        (r w : M.Region)
        → M.start_addr w ≡ M.start_addr r
        → M.len w ≡ M.len r
        → M.start_addr r + M.len r < 2 ^ 64
        → fits_region M decimal (saved_of M r) w ≡ ok tt
    unfolding fits_region
    fits_same r w s l b = ground arith

    -- A region takes the bytes that were saved of one at the same place.
    onto_same :
        (r w : M.Region)
        → M.start_addr w ≡ M.start_addr r
        → M.len w ≡ M.len r
        → M.start_addr r + M.len r < 2 ^ 64
        → let (w', outcome) = onto M (fits_region M decimal (saved_of M r) w) (saved_of M r) w in
          (outcome ≡ ok tt)
          × (M.start_addr w' ≡ M.start_addr r)
          × (M.len w' ≡ M.len r)
          × (M.contents w' ≡ M.contents r)
    unfolding onto chunks
    onto_same r w s l b =
        let offset = M.start_addr r - M.start_addr w in
        let (done, start, len, contents) =
          write_chunks-splice M (length (M.contents r)) w (M.start_addr r) offset 0 (M.contents r)
            (omega arith) (λ some. omega (arith, M.length-contents r)) (omega arith) in
        rw (fits_same r w s l b) (
          done,
          start ∙ s,
          len ∙ l,
          contents
              ∙ splice_whole (M.contents w) (offset + 0 * 4096) (M.contents r) (omega arith)
                  (omega (arith, M.length-contents r, M.length-contents w)),
        )

    restore_region-saved_of :
        (r w : M.Region) (below ws : List M.Region)
        → M.start_addr w ≡ M.start_addr r
        → M.len w ≡ M.len r
        → 0 < M.len r
        → M.start_addr r + M.len r < 2 ^ 64
        → AllBelow (M.start_addr r) below
        → IsLaidOut (M.start_addr w + M.len w) ws
        → (w' : M.Region) × (restore_region M decimal (saved_of M r) (below ++ (w ∷ ws))
            ≡ (below ++ (w' ∷ ws), ok tt))
          × (M.start_addr w' ≡ M.start_addr r)
          × (M.len w' ≡ M.len r)
          × (M.contents w' ≡ M.contents r)
    unfolding restore_region in_place
    restore_region-saved_of r w below ws s l pos b p q =
        let (done, start, len, contents) = onto_same r w s l b in
        (
          (onto M (fits_region M decimal (saved_of M r) w) (saved_of M r) w).0,
          rw
              (
                find_region_unique (M.start_addr r) below w ws p q (omega arith, omega arith),
                restore_region,
              )
              (ap
                (λ o. (
                  below
                      ++ ((onto M (fits_region M decimal (saved_of M r) w) (saved_of M r) w).0
                          ∷ ws),
                  o,
                ))
                done),
          start,
          len,
          contents,
        )

    -- The regions one by one, above those that are done.
    pub restore_memory-above :
        (from : ℕ) (rs ws below : List M.Region)
        → IsLaidOut from rs
        → SameLayout rs ws
        → AllBelow from below
        → (ws' : List M.Region) × (restore_memory M decimal (map (saved_of M) rs) (below ++ ws)
            ≡ (below ++ ws', ok tt))
          × SameBytes rs ws'
    unfolding restore_memory
    restore_memory-above from [] [] below p q h = ([], refl, (tt, refl))
    restore_memory-above from [] (w ∷ ws) below p q h = absurd q
    restore_memory-above from (r ∷ rs) [] below p q h = absurd q
    restore_memory-above from (r ∷ rs) (w ∷ ws) below (lo, pos, b, ps) (s, l, qs) h =
        let (w', first, start, len, contents) =
          restore_region-saved_of r w below ws s l pos b
            (AllBelow-mono from (M.start_addr r) below lo h)
            (SameLayout-IsLaidOut (M.start_addr w + M.len w) (M.start_addr r + M.len r) rs ws
              (omega arith) ps qs) in
        let (ws', others, (layout, bytes)) =
          restore_memory-above (M.start_addr r + M.len r) rs ws (below ++ (w' ∷ [])) ps qs (
            AllBelow-append (M.start_addr r + M.len r) below w'
              (AllBelow-mono from (M.start_addr r + M.len r) below (omega arith) h)
              (omega arith)) in
        (
          w' ∷ ws',
          ap (λ x. after x (λ _. restore_memory M decimal (map (saved_of M) rs))) first
              ∙ ap (restore_memory M decimal (map (saved_of M) rs))
                  (sym (append_assoc below (w' ∷ []) ws))
              ∙ others
              ∙ ap (λ l. (l, ok tt)) (append_assoc below (w' ∷ []) ws'),
          ((start, len, layout), cc),
        )

    -- What was saved of a memory whose regions stand one after the other below 2^64 can be written back
    -- to any memory with regions at the same places, and every region then holds the saved bytes.
    pub restore_memory-save_memory :
        (from : ℕ) (rs ws : List M.Region)
        → IsLaidOut from rs
        → SameLayout rs ws
        → (saved : List MemoryRegion) × (save_memory M rs ≡ ok saved)
          × (ws' : List M.Region) × (restore_memory M decimal saved ws ≡ (ws', ok tt))
          × SameLayout rs ws'
          × (map M.contents ws' ≡ map M.contents rs)
    restore_memory-save_memory from rs ws p q =
        let (ws', e, (layout, bytes)) = restore_memory-above from rs ws [] p q tt in
        (map (saved_of M) rs, save_memory-saved_of M rs, ws', e, layout, bytes)

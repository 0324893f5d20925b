-- ===== src/KernelLoader/PageTables.antt =====
-- The page tables that the loader writes: they map the first 4 GB to themselves, whatever else the
-- memory holds. `pdptes` and `pdes` are what the two loops do to the bytes of memory.
use mo_vm.Common.{
  ℕ, zero, suc, ◌+◌, ◌*◌, ◌^◌, ◌≤◌, ◌<◌, ◌≡◌, refl, ◌∙◌, ◌⊎◌, inl, inr, ap, subst, some,
  to_le_bytes, length-to_le_bytes, bit_or, bit_or_low, zeroed, length-zeroed, arith, dec_lt,
}
use mo_vm.Error.Action.{Runs, Runs-then}
use mo_vm.GuestMemory.{GuestMemory, Image, IsBacked, overlay}
use mo_vm.GuestMemory.Image.{
  write_then-Runs, read_u64, read_u64_cong, read_u64-overlay_apart, read_u64-overlay_self,
  read_u64-overlay-zeroed,
}
use mo_vm.KernelLoader.{
  page_table_base, pdpte_addr, pde_addr, write_pdptes, write_pdes, write_page_tables,
}
use mo_vm.KernelLoader.Paging.{IsIdentityMap}

-- Rounds left, the round, and the bytes of memory, for entries `e i` from `base` on.
module _ (e : ℕ → ℕ) (base : ℕ) where
  pub entries : ℕ → ℕ → Image → Image
  entries zero i f = f
  entries (suc n) i f = entries n (suc i) (overlay f (to_le_bytes 8 (e i)) (base + i * 8))

  pub entries_apart :
      (n i : ℕ) (f : Image) (x : ℕ)
      → (x < base + i * 8) ⊎ (base + (i + n) * 8 ≤ x)
      → entries n i f x ≡ f x
  unfolding entries
  entries_apart zero i f x h = refl
  entries_apart (suc n) i f x h =
      entries_apart n (suc i) (overlay f (to_le_bytes 8 (e i)) (base + i * 8)) x (omega arith)
      ∙ ground (arith, length-to_le_bytes 8 (e i))

  pub read_u64-entries :
      (n i : ℕ) (f : Image) (j : ℕ)
      → ((k : ℕ) → k < i + n → e k < 2 ^ 64)
      → i ≤ j
      → j < i + n
      → read_u64 (entries n i f) (base + j * 8) ≡ some (e j)
  unfolding entries
  read_u64-entries zero i f j small lo hi = absurd (omega arith)
  read_u64-entries (suc n) i f j small lo hi = elim (dec_lt i j) [
    | yes later ↦
        read_u64-entries n (suc i) (overlay f (to_le_bytes 8 (e i)) (base + i * 8)) j
          (λ k lt. small k (omega arith)) later (omega arith)
    | no now ↦
        let here : i ≡ j = omega arith in
        subst
          (λ k.
            read_u64 (entries n (suc i) (overlay f (to_le_bytes 8 (e i)) (base + i * 8)))
              (base + k * 8)
            ≡ some (e k))
          here
          (read_u64_cong _ (overlay f (to_le_bytes 8 (e i)) (base + i * 8)) (base + i * 8)
              (λ k lt. entries_apart n (suc i) _ (base + i * 8 + k) (omega arith))
            ∙ read_u64-overlay_self f (e i) (base + i * 8) (small i (omega arith)))
  ]

  -- A word apart from the entries reads as before.
  pub read_u64-entries_apart :
      (n i : ℕ) (f : Image) (a : ℕ)
      → (a + 8 ≤ base + i * 8) ⊎ (base + (i + n) * 8 ≤ a)
      → read_u64 (entries n i f) a ≡ read_u64 f a
  read_u64-entries_apart n i f a h =
      read_u64_cong (entries n i f) f a λ k lt. entries_apart n i f (a + k) (omega arith)

pdpte : ℕ → ℕ
pdpte i = bit_or (pde_addr + i * 0x1000) 0x3

pde : ℕ → ℕ
pde i = bit_or (i * 0x200000) 0x83

pdpte_lem : (i : ℕ) → pdpte i ≡ 0xb003 + i * 0x1000
unfolding pdpte
pdpte_lem i =
    ap (λ x. bit_or x 3) {x = pde_addr + i * 0x1000} {y = (11 + i) * 4096} (omega arith)
    ∙ bit_or_low 12 (11 + i) 3 (omega arith)
    ∙ omega arith

pde_lem : (i : ℕ) → pde i ≡ i * 0x200000 + 0x83
unfolding pde
pde_lem i =
    ap (λ x. bit_or x 0x83) {x = i * 0x200000} {y = i * 8192 * 256} (omega arith)
    ∙ bit_or_low 8 (i * 8192) 0x83 (omega arith)
    ∙ omega arith

-- Memory after the zeroing and the root entry, and after both loops.
root_image : Image → Image
root_image f =
    overlay (overlay f (zeroed 0x6000) page_table_base) (to_le_bytes 8 (bit_or pdpte_addr 0x3))
      page_table_base

pub tables_image : Image → Image
tables_image f = entries pde pde_addr 2048 0 (entries pdpte pdpte_addr 4 0 (root_image f))

read_u64-root_image_zero :
    (f : Image) (k : ℕ)
    → 8 ≤ k
    → k + 8 ≤ 0x6000
    → read_u64 (root_image f) (page_table_base + k) ≡ some 0
unfolding root_image
read_u64-root_image_zero f k lo hi =
    read_u64-overlay_apart (overlay f (zeroed 0x6000) page_table_base)
      (to_le_bytes 8 (bit_or pdpte_addr 0x3)) page_table_base (page_table_base + k)
      (inr (omega arith))
    ∙ read_u64-overlay-zeroed f 0x6000 page_table_base k hi

root_read : (f : Image) → read_u64 (root_image f) page_table_base ≡ some 0xa003
unfolding root_image
root_read f =
    read_u64-overlay_self (overlay f (zeroed 0x6000) page_table_base) (bit_or pdpte_addr 0x3)
      page_table_base (omega arith)

-- Below the directories' pages only the loops over other addresses write.
read_u64-tables_image_low :
    (f : Image) (a : ℕ)
    → a + 8 ≤ pde_addr
    → read_u64 (tables_image f) a ≡ read_u64 (entries pdpte pdpte_addr 4 0 (root_image f)) a
unfolding tables_image
read_u64-tables_image_low f a h =
    read_u64-entries_apart pde pde_addr 2048 0 (entries pdpte pdpte_addr 4 0 (root_image f)) a
      (inl (omega arith))

-- The tables are those of the identity map on the first 4 GB.
pub tables_image-IsIdentityMap : (f : Image) → IsIdentityMap 0x9000 (tables_image f)
unfolding tables_image
tables_image-IsIdentityMap f = record {
  root =
      read_u64-tables_image_low f 0x9000 (omega arith)
      ∙ read_u64-entries_apart pdpte pdpte_addr 4 0 (root_image f) 0x9000 (inl (omega arith))
      ∙ root_read f;
  no_root = λ i lo hi.
      read_u64-tables_image_low f (0x9000 + i * 8) (omega arith)
      ∙ read_u64-entries_apart pdpte pdpte_addr 4 0 (root_image f) (0x9000 + i * 8)
          (inl (omega arith))
      ∙ read_u64-root_image_zero f (i * 8) (omega arith) (omega arith);
  directory = λ i lt.
      read_u64-tables_image_low f (0xa000 + i * 8) (omega arith)
      ∙ read_u64-entries pdpte pdpte_addr 4 0 (root_image f) i (λ k l. omega (arith, pdpte_lem k))
          (omega arith) lt
      ∙ ap some (pdpte_lem i);
  no_directory = λ i lo hi.
      read_u64-tables_image_low f (0xa000 + i * 8) (omega arith)
      ∙ read_u64-entries_apart pdpte pdpte_addr 4 0 (root_image f) (0xa000 + i * 8)
          (inr (omega arith))
      ∙ ap (read_u64 (root_image f)) (omega arith)
      ∙ read_u64-root_image_zero f (0x1000 + i * 8) (omega arith) (omega arith);
  page = λ i lt.
      read_u64-entries pde pde_addr 2048 0 (entries pdpte pdpte_addr 4 0 (root_image f)) i
        (λ k l. omega (arith, pde_lem k)) (omega arith) lt
      ∙ ap some (pde_lem i);
}

-- Outside its six pages the tables leave memory as it was.
pub tables_image_apart : (f : Image) (x : ℕ) → (x < 0x9000) ⊎ (0xf000 ≤ x) → tables_image f x ≡ f x
unfolding tables_image root_image
tables_image_apart f x h =
    entries_apart pde pde_addr 2048 0 (entries pdpte pdpte_addr 4 0 (root_image f)) x (omega arith)
    ∙ entries_apart pdpte pdpte_addr 4 0 (root_image f) x (omega arith)
    ∙ ground (arith, length-zeroed 0x6000)

module _ (G : GuestMemory) (size : ℕ) where
  write_pdptes-Runs :
      (n i : ℕ) (m : G.Mem)
      → IsBacked (G.byte m) 0 size
      → pdpte_addr + (i + n) * 8 ≤ size
      → Runs
          (write_pdptes G n i)
          m
          λ _ t. (G.byte t ≡ entries pdpte pdpte_addr n i (G.byte m)) × IsBacked (G.byte t) 0 size
  unfolding write_pdptes entries pdpte
  write_pdptes-Runs zero i m backed room = (tt, m, refl, (refl, backed))
  write_pdptes-Runs (suc n) i m backed room =
      write_then-Runs G size (to_le_bytes 8 (pdpte i)) (pdpte_addr + i * 8) _
        (write_pdptes G n (suc i)) m _ backed (omega arith)
        λ t e b.
          let rest = write_pdptes-Runs n (suc i) t b (omega arith) in
          (rest.0, rest.1, rest.2, (rest.3.0 ∙ ap (entries pdpte pdpte_addr n (suc i)) e, rest.3.1))

  write_pdes-Runs :
      (n i : ℕ) (m : G.Mem)
      → IsBacked (G.byte m) 0 size
      → pde_addr + (i + n) * 8 ≤ size
      → Runs
          (write_pdes G n i)
          m
          λ _ t. (G.byte t ≡ entries pde pde_addr n i (G.byte m)) × IsBacked (G.byte t) 0 size
  unfolding write_pdes entries pde
  write_pdes-Runs zero i m backed room = (tt, m, refl, (refl, backed))
  write_pdes-Runs (suc n) i m backed room =
      write_then-Runs G size (to_le_bytes 8 (pde i)) (pde_addr + i * 8) _ (write_pdes G n (suc i)) m
        _ backed (omega arith)
        λ t e b.
          let rest = write_pdes-Runs n (suc i) t b (omega arith) in
          (rest.0, rest.1, rest.2, (rest.3.0 ∙ ap (entries pde pde_addr n (suc i)) e, rest.3.1))

  -- With memory up to the end of the tables the writes all succeed, and leave `tables_image`.
  pub write_page_tables-Runs :
      (m : G.Mem)
      → IsBacked (G.byte m) 0 size
      → 0xf000 ≤ size
      → Runs
          (write_page_tables G)
          m
          λ _ t. (G.byte t ≡ tables_image (G.byte m)) × IsBacked (G.byte t) 0 size
  unfolding write_page_tables tables_image root_image
  write_page_tables-Runs m backed room =
      write_then-Runs G size (zeroed 0x6000) page_table_base _ _ m _ backed
        (omega (arith, length-zeroed 0x6000))
        λ t e b.
          write_then-Runs G size (to_le_bytes 8 (bit_or pdpte_addr 0x3)) page_table_base _ _ t _ b
            (omega arith)
            λ u e' b'.
              Runs-then (write_pdptes G 4 0) (write_pdes G 2048 0) u _ _
                (write_pdptes-Runs 4 0 u b' (omega arith))
                λ v ev.
                  let rest = write_pdes-Runs 2048 0 v ev.1 (omega arith) in
                  (
                    rest.0,
                    rest.1,
                    rest.2,
                    (
                      rest.3.0
                          ∙ ap (entries pde pde_addr 2048 0) (
                              ev.0
                              ∙ ap (entries pdpte pdpte_addr 4 0) (
                                  e'
                                  ∙ ap
                                      (λ f.
                                        overlay f (to_le_bytes 8 (bit_or pdpte_addr 0x3))
                                          page_table_base)
                                      e)),
                      rest.3.1,
                    ),
                  )

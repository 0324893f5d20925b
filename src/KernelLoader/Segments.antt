-- ===== src/KernelLoader/Segments.antt =====
-- The kernel's PT_LOAD segments: what the loop over the program headers leaves in memory, and what
-- it answers to a header that does not fit the file.
use Prim.Native.String.{◌++◌ as append}
use mo_vm.Common.{
  ℕ, suc, ◌+◌, ◌-◌, ◌%◌, ◌^◌, ◌≤◌, ◌<◌, max, ◌≡◌, refl, ◌∙◌, ◌⊎◌, ap, subst, some, List, [], ◌∷◌,
  ◌++◌, length, take, drop, length-take, length-drop, ltb, ◌==◌, if◌then◌else◌, Bool-cases, false,
  ==_iff, String, hex, inl, inr, arith,
}
use mo_vm.Error.{HypervisorError, memory_error, err}
use mo_vm.Error.Action.{Runs, Runs-then, after}
use mo_vm.GuestMemory.{GuestMemory, Image, IsBacked, overlay, write}
use mo_vm.GuestMemory.Image.{write_within-Runs, bytes_at, bytes_at_cong, bytes_at-overlay_self}
use mo_vm.KernelLoader.{ProgramHeader, pt_load, load_segment, load_segments}

abbrev write_failed : ProgramHeader → String → HypervisorError
write_failed phdr e =
    memory_error
      (append "Failed to write kernel segment at 0x" (append (hex phdr.p_paddr) (append ": " e)))

-- The bytes of the file that a header names.
abbrev pub segment : List ℕ → ProgramHeader → List ℕ
segment buffer phdr = take phdr.p_filesz (drop phdr.p_offset buffer)

-- Memory with the loadable segments written in the order of their headers.
pub segments_image : List ℕ → List ProgramHeader → Image → Image
segments_image buffer [] f = f
segments_image buffer (phdr ∷ phdrs) f =
    segments_image buffer phdrs
      (if phdr.p_type == pt_load then overlay f (segment buffer phdr) phdr.p_paddr else f)

-- A header whose bytes lie in the file and whose segment lies in memory below `size`.
pub record IsLoadable (buffer : List ℕ) (size : ℕ) (phdr : ProgramHeader) : Type 0 where
  pub in_file : phdr.p_offset + phdr.p_filesz ≤ length buffer
  pub in_memory : phdr.p_paddr + max 1 phdr.p_filesz ≤ size

abbrev pub AllLoadable : List ℕ → ℕ → List ProgramHeader → Type 0
AllLoadable buffer size [] = Unit {0}
AllLoadable buffer size (phdr ∷ phdrs) =
    (phdr.p_type ≡ pt_load → IsLoadable buffer size phdr) × AllLoadable buffer size phdrs

module _ (G : GuestMemory) (size : ℕ) (buffer : List ℕ) (fits : length buffer < 2 ^ 64) where
  load_segment-eq-write :
      (phdr : ProgramHeader) (m : G.Mem)
      → IsLoadable buffer size phdr
      → load_segment G buffer phdr m
        ≡ write G (segment buffer phdr) phdr.p_paddr (write_failed phdr) m
  unfolding load_segment
  load_segment-eq-write phdr m l =
      let end : (phdr.p_offset + phdr.p_filesz) % 2 ^ 64 ≡ phdr.p_offset + phdr.p_filesz =
        omega arith in
      let inside : ltb (length buffer) (phdr.p_offset + phdr.p_filesz) ≡ false = ground arith in
      let forward : ltb (phdr.p_offset + phdr.p_filesz) phdr.p_offset ≡ false = ground arith in
      let long : phdr.p_offset + phdr.p_filesz - phdr.p_offset ≡ phdr.p_filesz = omega arith in
      rw (end, inside, forward, long)

  length-segment-le : (phdr : ProgramHeader) → length (segment buffer phdr) ≤ phdr.p_filesz
  length-segment-le phdr = omega (arith, length-take phdr.p_filesz (drop phdr.p_offset buffer))

  load_segment-Runs :
      (phdr : ProgramHeader) (m : G.Mem)
      → IsBacked (G.byte m) 0 size
      → IsLoadable buffer size phdr
      → Runs (load_segment G buffer phdr) m λ _ t.
        (G.byte t ≡ overlay (G.byte m) (segment buffer phdr) phdr.p_paddr)
        × IsBacked (G.byte t) 0 size
  load_segment-Runs phdr m backed l =
      let (u, t, e, p) =
        write_within-Runs G size (segment buffer phdr) phdr.p_paddr (write_failed phdr) m backed
          (omega (arith, length-segment-le phdr)) in
      (u, t, load_segment-eq-write phdr m l ∙ e, p)

  pub load_segments-Runs :
      (phdrs : List ProgramHeader) (m : G.Mem)
      → IsBacked (G.byte m) 0 size
      → AllLoadable buffer size phdrs
      → Runs
          (load_segments G buffer phdrs)
          m
          λ _ t. (G.byte t ≡ segments_image buffer phdrs (G.byte m)) × IsBacked (G.byte t) 0 size
  unfolding load_segments segments_image
  load_segments-Runs [] m backed l = (tt, m, refl, (refl, backed))
  load_segments-Runs (phdr ∷ phdrs) m backed l = elim (Bool-cases (phdr.p_type == pt_load)) [
    | inl yes' ↦ rw yes' (
        Runs-then (load_segment G buffer phdr) (load_segments G buffer phdrs) m _ _
          (load_segment-Runs phdr m backed (l.0 ((==_iff phdr.p_type pt_load).0 yes')))
          λ t p.
            let rest = load_segments-Runs phdrs t p.1 l.1 in
            (rest.0, rest.1, rest.2, (rest.3.0 ∙ ap (segments_image buffer phdrs) p.0, rest.3.1)))
    | inr no' ↦ rw no' (load_segments-Runs phdrs m backed l.1)
  ]

  -- A loop over more headers goes on where the loop over the first ones ended.
  pub load_segments-append :
      (pre post : List ProgramHeader) (m : G.Mem)
      → IsBacked (G.byte m) 0 size
      → AllLoadable buffer size pre
      → (t : G.Mem) × (load_segments G buffer (pre ++ post) m ≡ load_segments G buffer post t)
        × (G.byte t ≡ segments_image buffer pre (G.byte m))
  unfolding load_segments segments_image
  load_segments-append [] post m backed l = (m, refl, refl)
  load_segments-append (phdr ∷ pre) post m backed l = elim (Bool-cases (phdr.p_type == pt_load)) [
    | inl loads ↦
        let (u, t, e, p) =
          load_segment-Runs phdr m backed (l.0 ((==_iff phdr.p_type pt_load).0 loads)) in
        let (v, r, q) = load_segments-append pre post t p.1 l.1 in
        rw loads (
          v,
          ap (λ x. after x (λ _. load_segments G buffer (pre ++ post))) e ∙ r,
          q ∙ ap (segments_image buffer pre) p.0,
        )
    | inr skips ↦ rw skips (load_segments-append pre post m backed l.1)
  ]

  -- A header that reaches past the end of the file ends the loop with an error.
  pub load_segments-past_end :
      (phdr : ProgramHeader) (post : List ProgramHeader) (m : G.Mem)
      → phdr.p_type ≡ pt_load
      → length buffer < phdr.p_offset + phdr.p_filesz
      → phdr.p_offset + phdr.p_filesz < 2 ^ 64
      → load_segments G buffer (phdr ∷ post) m
        ≡ (m, err (memory_error "Invalid ELF segment: extends past end of file"))
  unfolding load_segments load_segment
  load_segments-past_end phdr post m loads past no_wrap = ground arith

-- The loadable segments of the headers keep off the `n` addresses from `a` on.
abbrev pub AllApart : ℕ → ℕ → List ProgramHeader → Type 0
AllApart a n [] = Unit {0}
AllApart a n (phdr ∷ phdrs) =
    (phdr.p_type ≡ pt_load → (a + n ≤ phdr.p_paddr) ⊎ (phdr.p_paddr + phdr.p_filesz ≤ a))
    × AllApart a n phdrs

-- Loadable segments keep off what lies above the backed memory.
AllLoadable-AllApart :
    (buffer : List ℕ) (size n : ℕ) (phdrs : List ProgramHeader)
    → AllLoadable buffer size phdrs
    → AllApart size n phdrs
AllLoadable-AllApart buffer size n [] l = tt
AllLoadable-AllApart buffer size n (phdr ∷ phdrs) l = (
  λ loads. inr (let h = (l.0 loads).in_memory in omega arith),
  AllLoadable-AllApart buffer size n phdrs l.1,
)

segments_image_apart :
    (buffer : List ℕ) (phdrs : List ProgramHeader) (f : Image) (a n i : ℕ)
    → AllApart a n phdrs
    → i < n
    → segments_image buffer phdrs f (a + i) ≡ f (a + i)
unfolding segments_image
segments_image_apart buffer [] f a n i h lt = refl
segments_image_apart buffer (phdr ∷ phdrs) f a n i h lt = ground (
  arith,
  segments_image_apart buffer phdrs f a n i h.1 lt,
  segments_image_apart buffer phdrs (overlay f (segment buffer phdr) phdr.p_paddr) a n i h.1 lt,
  length-take phdr.p_filesz (drop phdr.p_offset buffer),
)

-- A segment that no later one overlaps stands in memory as it stands in the file.
pub segments_image-segment :
    (buffer : List ℕ) (pre : List ProgramHeader) (phdr : ProgramHeader) (post : List ProgramHeader)
    (f : Image)
    → phdr.p_type ≡ pt_load
    → phdr.p_offset + phdr.p_filesz ≤ length buffer
    → AllApart phdr.p_paddr phdr.p_filesz post
    → bytes_at (segments_image buffer (pre ++ phdr ∷ post) f) phdr.p_filesz phdr.p_paddr
      ≡ some (segment buffer phdr)
unfolding segments_image
segments_image-segment buffer [] phdr post f loads room apart =
    let long : length (segment buffer phdr) ≡ phdr.p_filesz = omega (
      arith,
      length-take phdr.p_filesz (drop phdr.p_offset buffer),
      length-drop phdr.p_offset buffer,
    ) in
    rw ((==_iff phdr.p_type pt_load).1 loads, segments_image)
      (bytes_at_cong _ (overlay f (segment buffer phdr) phdr.p_paddr) phdr.p_filesz phdr.p_paddr
          (λ i lt. segments_image_apart buffer post _ phdr.p_paddr phdr.p_filesz i apart lt)
        ∙ subst
            (λ k.
              bytes_at (overlay f (segment buffer phdr) phdr.p_paddr) k phdr.p_paddr
              ≡ some (segment buffer phdr))
            long (bytes_at-overlay_self f (segment buffer phdr) phdr.p_paddr))
segments_image-segment buffer (q ∷ pre) phdr post f loads room apart =
    segments_image-segment buffer pre phdr post _ loads room apart

pub segments_image_above :
    (buffer : List ℕ) (size : ℕ) (phdrs : List ProgramHeader) (f : Image) (x : ℕ)
    → AllLoadable buffer size phdrs
    → size ≤ x
    → segments_image buffer phdrs f x ≡ f x
segments_image_above buffer size phdrs f x l h =
    ap (segments_image buffer phdrs f) {x = x} {y = size + (x - size)} (omega arith)
    ∙ segments_image_apart buffer phdrs f size (suc (x - size)) (x - size)
        (AllLoadable-AllApart buffer size (suc (x - size)) phdrs l) (omega arith)
    ∙ ap f (omega arith)

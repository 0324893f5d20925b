-- ===== src/Snapshot/Memory/Saved.antt =====
-- What is saved of memory and written back: the bytes that a region gives and takes, chunk by chunk.
use mo_vm.Common.{
  ℕ, zero, suc, ◌+◌, ◌*◌, ◌%◌, ◌^◌, ◌≤◌, ◌<◌, ◌≡◌, refl, ap, sym, ◌∙◌, List, [], ◌∷◌, length, take,
  drop, splice, chunks_in, chunks, take_two, length-take-drop, splice-nil, splice_two, map, zeroed,
  length-zeroed, take_all, length-take, length-drop, arith,
}
use mo_vm.Error.{ok}
use mo_vm.Error.Try.{traverse}
use mo_vm.Snapshot.Memory.{Mapping, read_chunks, write_chunks, save_region, save_memory}
use mo_vm.Snapshot.{MemoryRegion}

module _ (M : Mapping) where
  -- Reading chunk by chunk gives the bytes of the region, as many as the buffer has.
  pub read_chunks-take :
      (rounds : ℕ) (r : M.Region) (i : ℕ) (buf : List ℕ)
      → length buf ≤ rounds
      → (0 < length buf → i * 4096 + length buf ≤ M.len r)
      → read_chunks M r i (chunks_in rounds buf)
        ≡ ok (take (length buf) (drop (i * 4096) (M.contents r)))
  unfolding read_chunks chunks_in
  read_chunks-take zero r i [] h k = refl
  read_chunks-take zero r i (x ∷ buf) h k = absurd (omega arith)
  read_chunks-take (suc rounds) r i [] h k = refl
  read_chunks-take (suc rounds) r i (x ∷ buf) h k =
      let whole : i * 4096 + length (x ∷ buf) ≤ M.len r = k (omega arith) in
      let short = length-take 4096 (x ∷ buf) in
      rw
        (
          M.read_inside r (take 4096 (x ∷ buf)) (i * 4096) (omega arith) (omega arith),
          read_chunks-take rounds r (suc i) (drop 4096 (x ∷ buf))
              (omega (arith, length-drop 4096 (x ∷ buf)))
              (λ some. omega (arith, length-drop 4096 (x ∷ buf))),
        )
        (ap ok (
          take_two (M.contents r) (length (take 4096 (x ∷ buf))) (length (drop 4096 (x ∷ buf)))
            (i * 4096) (suc i * 4096) (λ some. omega (arith, length-drop 4096 (x ∷ buf)))
          ∙ ap (λ n. take n (drop (i * 4096) (M.contents r))) (length-take-drop 4096 (x ∷ buf))))

  -- Writing chunk by chunk puts all the data where it belongs and changes nothing else.
  pub write_chunks-splice :
      (rounds : ℕ) (r : M.Region) (guest_addr offset i : ℕ) (bs : List ℕ)
      → length bs ≤ rounds
      → (0 < length bs → offset + i * 4096 + length bs ≤ M.len r)
      → M.len r < 2 ^ 64
      → let (r', outcome) = write_chunks M guest_addr offset i (chunks_in rounds bs) r in
        (outcome ≡ ok tt)
        × (M.start_addr r' ≡ M.start_addr r)
        × (M.len r' ≡ M.len r)
        × (M.contents r' ≡ splice (M.contents r) (offset + i * 4096) bs)
  unfolding write_chunks chunks_in
  write_chunks-splice zero r guest_addr offset i [] h k b =
      (refl, refl, refl, sym (splice-nil (M.contents r) (offset + i * 4096)))
  write_chunks-splice zero r guest_addr offset i (x ∷ bs) h k b = absurd (omega arith)
  write_chunks-splice (suc rounds) r guest_addr offset i [] h k b =
      (refl, refl, refl, sym (splice-nil (M.contents r) (offset + i * 4096)))
  write_chunks-splice (suc rounds) r guest_addr offset i (x ∷ bs) h k b =
      let chunk = take 4096 (x ∷ bs) in
      let rest = drop 4096 (x ∷ bs) in
      let at = offset + i * 4096 in
      let whole : at + length (x ∷ bs) ≤ M.len r = k (omega arith) in
      let short = length-take 4096 (x ∷ bs) in
      let left = length-drop 4096 (x ∷ bs) in
      let unwrapped : at % 2 ^ 64 ≡ at = omega arith in
      let (written, changed) = M.write_inside r chunk at (omega arith) (omega arith) in
      let (starts, lasts) = M.write_place r chunk at in
      let r1 = (M.write_slice r chunk at).0 in
      let (done, start, len, contents) =
        write_chunks-splice rounds r1 guest_addr offset (suc i) rest (omega arith)
          (λ some. omega arith) (omega arith) in
      rw (unwrapped, written)
        (
          done,
          start ∙ starts,
          len ∙ lasts,
          contents
              ∙ ap (λ c. splice c (offset + suc i * 4096) rest) changed
              ∙ splice_two (M.contents r) 4096 at (offset + suc i * 4096) (x ∷ bs)
                  (λ some. omega arith) (omega (arith, M.length-contents r)),
        )

  -- What is saved of a region.
  abbrev pub saved_of : M.Region → MemoryRegion
  saved_of r = record { guest_addr = M.start_addr r; size = M.len r; bytes = M.contents r }

  save_region-saved_of : (r : M.Region) → save_region M r ≡ ok (saved_of r)
  unfolding save_region chunks
  save_region-saved_of r =
      let n : length (zeroed (M.len r)) ≡ M.len r = length-zeroed (M.len r) in
      let read =
        read_chunks-take (length (zeroed (M.len r))) r 0 (zeroed (M.len r)) (omega arith)
          (λ some. omega arith) in
      rw (read, n, take_all (M.len r) (M.contents r) (omega (arith, M.length-contents r))) refl

  -- Every region is saved with its place and all its bytes.
  pub save_memory-saved_of :
      (memory : List M.Region) → save_memory M memory ≡ ok (map saved_of memory)
  unfolding save_memory traverse
  save_memory-saved_of [] = refl
  save_memory-saved_of (r ∷ rs) = rw (save_region-saved_of r, save_memory-saved_of rs) refl

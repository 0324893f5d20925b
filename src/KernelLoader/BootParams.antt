-- ===== src/KernelLoader/BootParams.antt =====
-- The boot parameters and the command line, read back by the offsets of the Linux boot protocol.
use mo_vm.Common.{
  ℕ, ◌+◌, ◌%◌, ◌^◌, ◌≤◌, ◌<◌, ◌≡◌, refl, ◌∙◌, ◌⊎◌, inl, inr, ap, subst, List, [], ◌∷◌, ◌++◌, some,
  length, length-append, take, drop, splice, length-splice, to_le_bytes, zeroed, length-zeroed,
  take-drop-splice, take-drop-splice_apart, arith,
}
use mo_vm.Error.Action.{Runs}
use mo_vm.GuestMemory.{GuestMemory, Image, IsBacked, overlay}
use mo_vm.GuestMemory.Image.{
  bytes_at, bytes_at-overlay_part, bytes_at-overlay_apart, bytes_at-overlay_self, write_then-Runs,
  write_within-Runs,
}
use mo_vm.KernelLoader.{boot_params, boot_params_addr, cmdline_addr, write_boot_params}

-- Memory after the command line, its terminator, and the boot parameters are written.
pub boot_image : List ℕ → Image → Image
boot_image cmdline f =
    overlay (overlay f (cmdline ++ (0 ∷ [])) cmdline_addr) boot_params boot_params_addr

-- The page, one field after another.
page1 : List ℕ
page1 = splice (zeroed 4096) 0x210 (0xff ∷ [])

page2 : List ℕ
page2 = splice page1 0x228 (to_le_bytes 4 (cmdline_addr % 2 ^ 32))

page3 : List ℕ
page3 = splice page2 0x1e8 (1 ∷ [])

page4 : List ℕ
page4 = splice page3 0x2d0 (to_le_bytes 8 0)

page5 : List ℕ
page5 = splice page4 0x2d8 (to_le_bytes 8 0x8000000)

page6 : List ℕ
page6 = splice page5 0x2e0 (to_le_bytes 4 1)

boot_params-eq-page6 : boot_params ≡ page6
unfolding boot_params page6 page5 page4 page3 page2 page1
boot_params-eq-page6 = refl

page_lengths :
    (length page1 ≡ 4096)
    × (length page2 ≡ 4096)
    × (length page3 ≡ 4096)
    × (length page4 ≡ 4096)
    × (length page5 ≡ 4096)
    × (length page6 ≡ 4096)
unfolding page6 page5 page4 page3 page2 page1
page_lengths =
    let z = length-zeroed 4096 in
    let l1 : length page1 ≡ 4096 =
      length-splice (zeroed 4096) 0x210 (0xff ∷ []) (omega arith) ∙ z in
    let l2 : length page2 ≡ 4096 =
      length-splice page1 0x228 (to_le_bytes 4 (cmdline_addr % 2 ^ 32)) (omega arith) ∙ l1 in
    let l3 : length page3 ≡ 4096 = length-splice page2 0x1e8 (1 ∷ []) (omega arith) ∙ l2 in
    let l4 : length page4 ≡ 4096 = length-splice page3 0x2d0 (to_le_bytes 8 0) (omega arith) ∙ l3 in
    let l5 : length page5 ≡ 4096 =
      length-splice page4 0x2d8 (to_le_bytes 8 0x8000000) (omega arith) ∙ l4 in
    (l1, l2, l3, l4, l5, length-splice page5 0x2e0 (to_le_bytes 4 1) (omega arith) ∙ l5)

-- The fields as the kernel reads them.
pub record IsBootParams (page : List ℕ) : Type 0 where
  pub long : length page ≡ 4096
  pub type_of_loader : take 1 (drop 0x210 page) ≡ 0xff ∷ []
  pub cmd_line_ptr : take 4 (drop 0x228 page) ≡ to_le_bytes 4 cmdline_addr
  pub e820_entries : take 1 (drop 0x1e8 page) ≡ 1 ∷ []
  pub e820_addr : take 8 (drop 0x2d0 page) ≡ to_le_bytes 8 0
  pub e820_size : take 8 (drop 0x2d8 page) ≡ to_le_bytes 8 0x8000000
  pub e820_type : take 4 (drop 0x2e0 page) ≡ to_le_bytes 4 1

-- Later fields keep off earlier ones.
page6_keeps :
    (k n : ℕ) → (k + n ≤ 0x2e0) ⊎ (0x2e4 ≤ k) → take n (drop k page6) ≡ take n (drop k page5)
unfolding page6
page6_keeps k n h =
    take-drop-splice_apart page5 0x2e0 (to_le_bytes 4 1) k n (omega (arith, page_lengths)) h

page5_keeps :
    (k n : ℕ) → (k + n ≤ 0x2d8) ⊎ (0x2e0 ≤ k) → take n (drop k page5) ≡ take n (drop k page4)
unfolding page5
page5_keeps k n h =
    take-drop-splice_apart page4 0x2d8 (to_le_bytes 8 0x8000000) k n (omega (arith, page_lengths)) h

page4_keeps :
    (k n : ℕ) → (k + n ≤ 0x2d0) ⊎ (0x2d8 ≤ k) → take n (drop k page4) ≡ take n (drop k page3)
unfolding page4
page4_keeps k n h =
    take-drop-splice_apart page3 0x2d0 (to_le_bytes 8 0) k n (omega (arith, page_lengths)) h

page3_keeps :
    (k n : ℕ) → (k + n ≤ 0x1e8) ⊎ (0x1e9 ≤ k) → take n (drop k page3) ≡ take n (drop k page2)
unfolding page3
page3_keeps k n h = take-drop-splice_apart page2 0x1e8 (1 ∷ []) k n (omega (arith, page_lengths)) h

page2_keeps :
    (k n : ℕ) → (k + n ≤ 0x228) ⊎ (0x22c ≤ k) → take n (drop k page2) ≡ take n (drop k page1)
unfolding page2
page2_keeps k n h =
    take-drop-splice_apart page1 0x228 (to_le_bytes 4 (cmdline_addr % 2 ^ 32)) k n
      (omega (arith, page_lengths)) h

pub boot_params-IsBootParams : IsBootParams boot_params
unfolding page6 page5 page4 page3 page2 page1
boot_params-IsBootParams = rw boot_params-eq-page6 (record {
  long = page_lengths.5;
  type_of_loader =
      page6_keeps 0x210 1 (inl (omega arith))
      ∙ page5_keeps 0x210 1 (inl (omega arith))
      ∙ page4_keeps 0x210 1 (inl (omega arith))
      ∙ page3_keeps 0x210 1 (inr (omega arith))
      ∙ page2_keeps 0x210 1 (inl (omega arith))
      ∙ take-drop-splice (zeroed 4096) 0x210 (0xff ∷ []) (omega (arith, length-zeroed 4096));
  cmd_line_ptr =
      page6_keeps 0x228 4 (inl (omega arith))
      ∙ page5_keeps 0x228 4 (inl (omega arith))
      ∙ page4_keeps 0x228 4 (inl (omega arith))
      ∙ page3_keeps 0x228 4 (inr (omega arith))
      ∙ take-drop-splice page1 0x228 (to_le_bytes 4 (cmdline_addr % 2 ^ 32))
          (omega (arith, page_lengths));
  e820_entries =
      page6_keeps 0x1e8 1 (inl (omega arith))
      ∙ page5_keeps 0x1e8 1 (inl (omega arith))
      ∙ page4_keeps 0x1e8 1 (inl (omega arith))
      ∙ take-drop-splice page2 0x1e8 (1 ∷ []) (omega (arith, page_lengths));
  e820_addr =
      page6_keeps 0x2d0 8 (inl (omega arith))
      ∙ page5_keeps 0x2d0 8 (inl (omega arith))
      ∙ take-drop-splice page3 0x2d0 (to_le_bytes 8 0) (omega (arith, page_lengths));
  e820_size =
      page6_keeps 0x2d8 8 (inl (omega arith))
      ∙ take-drop-splice page4 0x2d8 (to_le_bytes 8 0x8000000) (omega (arith, page_lengths));
  e820_type = take-drop-splice page5 0x2e0 (to_le_bytes 4 1) (omega (arith, page_lengths));
})

pub boot_image_apart :
    (cmdline : List ℕ) (f : Image) (x : ℕ)
    → (x < 0x7000) ⊎ (0x8000 ≤ x)
    → (x < 0x10000) ⊎ (0x10000 + length cmdline < x)
    → boot_image cmdline f x ≡ f x
unfolding boot_image
boot_image_apart cmdline f x h k =
    ground (arith, boot_params-IsBootParams.long, length-append cmdline (0 ∷ []))

-- The command line stands where the boot parameters say, with its terminator.
pub boot_image-cmdline :
    (cmdline : List ℕ) (f : Image)
    → bytes_at (boot_image cmdline f) (length cmdline + 1) cmdline_addr ≡ some (cmdline ++ (0 ∷ []))
unfolding boot_image
boot_image-cmdline cmdline f =
    let text : List ℕ = cmdline ++ (0 ∷ []) in
    let long : length text ≡ length cmdline + 1 = omega (arith, length-append cmdline (0 ∷ [])) in
    bytes_at-overlay_apart (overlay f text cmdline_addr) boot_params boot_params_addr
      (length cmdline + 1) cmdline_addr (omega (arith, boot_params-IsBootParams.long))
    ∙ subst (λ n. bytes_at (overlay f text cmdline_addr) n cmdline_addr ≡ some text) long
        (bytes_at-overlay_self f text cmdline_addr)

-- A field of the page reads back from memory.
pub boot_image-field :
    (cmdline : List ℕ) (f : Image) (k n : ℕ)
    → k + n ≤ 4096
    → bytes_at (boot_image cmdline f) n (boot_params_addr + k) ≡ some (take n (drop k boot_params))
unfolding boot_image
boot_image-field cmdline f k n h =
    bytes_at-overlay_part (overlay f (cmdline ++ (0 ∷ [])) cmdline_addr) boot_params
      boot_params_addr k n (omega (arith, boot_params-IsBootParams.long))

module _ (G : GuestMemory) (size : ℕ) where
  pub write_boot_params-Runs :
      (cmdline : List ℕ) (m : G.Mem)
      → IsBacked (G.byte m) 0 size
      → cmdline_addr + length cmdline + 1 ≤ size
      → Runs
          (write_boot_params G cmdline)
          m
          λ _ t. (G.byte t ≡ boot_image cmdline (G.byte m)) × IsBacked (G.byte t) 0 size
  unfolding write_boot_params boot_image
  write_boot_params-Runs cmdline m backed room =
      write_then-Runs G size (cmdline ++ (0 ∷ [])) cmdline_addr _ _ m _ backed
        (omega (arith, length-append cmdline (0 ∷ [])))
        λ t e b.
          let (u, v, r, p) =
            write_within-Runs G size boot_params boot_params_addr _ t b
              (omega (arith, boot_params-IsBootParams.long)) in
          (u, v, r, (p.0 ∙ ap (λ f. overlay f boot_params boot_params_addr) e, p.1))

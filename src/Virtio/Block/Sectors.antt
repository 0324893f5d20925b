-- ===== src/Virtio/Block/Sectors.antt =====
-- The sector of a request, which is read from the same address as its type.
use mo_vm.Common.{
  ◌<◌, ◌≤◌, ◌-◌, ◌⊎◌, ltb, if◌then◌else◌, dec_lt, length, inl, inr, ℕ, ◌+◌, ◌*◌, ◌%◌, ◌^◌, ◌≡◌, ap,
  none, List, [], ◌∷◌, take, get_elem?-take, get_elem?-none, list_ext, from_le_bytes, zeroed,
  length-zeroed, arith,
}
use mo_vm.GuestMemory.{GuestMemory}
use mo_vm.Virtio.Queue.{Descriptor}
use mo_vm.Virtio.Block.Disk.{File, seek, byte_at, read_exact, read_exact_cong, write_all_apart}
use mo_vm.Virtio.Block.{
  Request, peek, disk_offset, buf_len, request_in, request_out, inline_read, inline_write,
}

low_word : (bs : List ℕ) → (r : ℕ) × (from_le_bytes bs ≡ from_le_bytes (take 4 bs) + 2 ^ 32 * r)
low_word [] = (0, omega arith)
low_word (a ∷ []) = (0, omega arith)
low_word (a ∷ b ∷ []) = (0, omega arith)
low_word (a ∷ b ∷ c ∷ []) = (0, omega arith)
low_word (a ∷ b ∷ c ∷ d ∷ bs) = (from_le_bytes bs, omega arith)

-- Blocks of 512 bytes from multiples of 2^41 on, and what lies up to 4 GB behind them.
apart :
    (from to i n : ℕ)
    → from % 2 ^ 41 ≡ 0
    → to % 2 ^ 41 ≡ 512
    → i < 512
    → n < 2 ^ 32
    → (from + i < to) ⊎ (to + n ≤ from + i)
apart from to i n p q lt small = elim (dec_lt (from + i) to) [
  | yes before ↦ inl before
  | no behind ↦ inr (omega arith)
]

module _ (G : GuestMemory) where
  peek-prefix :
      (addr : ℕ) (s : Request G)
      → (peek G 4 addr s).1 ≡ none
      → (peek G 8 addr s).1 ≡ none
      → (peek G 4 addr s).0 ≡ take 4 (peek G 8 addr s).0
  peek-prefix addr s short long = list_ext (peek G 4 addr s).0 (take 4 (peek G 8 addr s).0) λ i.
      ground (
        arith,
        get_elem?-take 4 (peek G 8 addr s).0 i,
        get_elem?-none (peek G 4 addr s).0 i,
        G.read_length s.mem (zeroed 4) addr,
        length-zeroed 4,
        length-zeroed 8,
        G.read_byte s.mem (zeroed 4) addr i short,
        G.read_byte s.mem (zeroed 8) addr i long,
      )

  -- A request that can be read names a sector whose low 32 bits are the type of the request, so with blocks of 512
  -- bytes every read starts at a multiple of 2^41 bytes, and every write 512 bytes after one.
  peek-disk_offset :
      (addr : ℕ) (s : Request G)
      → (peek G 4 addr s).1 ≡ none
      → (peek G 8 addr s).1 ≡ none
      → let req_type = from_le_bytes (peek G 4 addr s).0 in
        let sector = from_le_bytes (peek G 8 addr s).0 in
        (sector % 2 ^ 32 ≡ req_type % 2 ^ 32)
        × (disk_offset G 512 sector % 2 ^ 41 ≡ 512 * (req_type % 2 ^ 32))
  peek-disk_offset addr s short long =
      let (r, e) = low_word (peek G 8 addr s).0 in
      let same = ap from_le_bytes (peek-prefix addr s short long) in
      (omega (arith, e, same), omega (arith, e, same))

  -- The place on the disk that a request names.
  abbrev pub place : Descriptor → Request G → ℕ
  place desc s = disk_offset G 512 (from_le_bytes (peek G 8 desc.addr s).0)

  -- A request of this type that can be read, and whose place the system takes.
  pub record Asks (req_type : ℕ) (desc : Descriptor) (s : Request G) : Type 0 where
    pub type_read : (peek G 4 desc.addr s).1 ≡ none
    pub sector_read : (peek G 8 desc.addr s).1 ≡ none
    pub is_type : from_le_bytes (peek G 4 desc.addr s).0 ≡ req_type
    pub seeks : place desc s < 2 ^ 63
    pub small : desc.len < 2 ^ 32

  Asks-place :
      (req_type : ℕ) (desc : Descriptor) (s : Request G)
      → req_type < 2 ^ 32
      → Asks req_type desc s
      → place desc s % 2 ^ 41 ≡ 512 * req_type
  Asks-place req_type desc s lt a =
      omega (arith, (peek-disk_offset desc.addr s a.type_read a.sector_read).1, a.is_type)

  seek-there :
      (f : File) (offset : ℕ) → offset < 2 ^ 63 → (seek f offset).0 ≡ record f { cursor = offset }
  unfolding seek
  seek-there f offset lt = ground arith

  -- What a write changes lies from its place on.
  inline_write-apart :
      (desc : Descriptor) (s : Request G) (x : ℕ)
      → place desc s < 2 ^ 63
      → (x < place desc s) ⊎ (place desc s + (desc.len - 16) ≤ x)
      → byte_at (inline_write G 512 desc s).world x ≡ byte_at s.world x
  unfolding inline_write
  inline_write-apart desc s x lt h =
      let n : ℕ = buf_len G desc in
      let buf : List ℕ =
        if ltb (desc.addr + 16) (2 ^ 64) then (peek G n (desc.addr + 16) s).0 else zeroed n in
      let long : length buf ≡ n =
        ground (arith, G.read_length s.mem (zeroed n) (desc.addr + 16), length-zeroed n) in
      rw (seek-there s.world (place desc s) lt)
        (write_all_apart (record (s.world) { cursor = place desc s }) buf x (reach long h))
    where
      reach :
          {a : ℕ}
          → a ≡ desc.len - 16
          → (x < place desc s) ⊎ (place desc s + (desc.len - 16) ≤ x)
          → (x < place desc s) ⊎ (place desc s + a ≤ x)
      reach e (inl before) = inl before
      reach e (inr behind) = inr (omega arith)

  -- With blocks of 512 bytes, take a read of at most one block and a write, both of whose headers can
  -- be read from the same memory and name places on the disk below 2^63: done after the write, the
  -- read leaves guest memory as it would without the write. So such a read never gives back what was
  -- written.
  pub inline_read-inline_write :
      (r w : Descriptor) (s : Request G)
      → Asks request_in r s
      → Asks request_out w s
      → r.len ≤ 16 + 512
      → (inline_read G 512 r (record s { world = (inline_write G 512 w s).world })).mem
        ≡ (inline_read G 512 r s).mem
  unfolding inline_read
  inline_read-inline_write r w s asks_r asks_w short =
      let from : ℕ = place r s in
      let to : ℕ = place w s in
      let at_r : from % 2 ^ 41 ≡ 0 =
        omega (arith, Asks-place request_in r s (omega arith) asks_r) in
      let at_w : to % 2 ^ 41 ≡ 512 =
        omega (arith, Asks-place request_out w s (omega arith) asks_w) in
      let f : File = (inline_write G 512 w s).world in
      let bufs : (read_exact (seek f from).0 (zeroed (buf_len G r))).1
          ≡ (read_exact (seek s.world from).0 (zeroed (buf_len G r))).1 =
        rw (seek-there f from asks_r.seeks, seek-there s.world from asks_r.seeks)
          (read_exact_cong (record f { cursor = from }) (record (s.world) { cursor = from })
            (buf_len G r)
            λ i lt. inline_write-apart w s (from + i) asks_w.seeks (
              apart from to i (w.len - 16) at_r at_w (omega arith)
                (omega (arith, asks_w.small)))) in
      ap
        (λ buf.
          if ltb (r.addr + 16) (2 ^ 64) then (G.write_slice s.mem buf (r.addr + 16)).0 else s.mem)
        bufs

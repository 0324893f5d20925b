-- ===== src/GuestMemory/Image.antt =====
-- What writes do to the bytes of memory: total correctness of a write, words read back, and ranges
-- that a write leaves alone.
use mo_vm.Common.{
  ℕ, zero, suc, ◌+◌, ◌-◌, ◌^◌, ◌<◌, ◌≤◌, max, ◌≡◌, refl, ◌⊎◌, Option, none, some, List, [], ◌∷◌,
  length, get_elem?, take, drop, arith, fun_ext, ◌∙◌, ap, sym, subst, String, to_le_bytes,
  from_le_bytes, from_le_bytes-to_le_bytes, zeroed, length-zeroed, take-drop-zeroed,
  get_elem?-ne-none, get_elem?-take, get_elem?-drop, length-take, length-drop,
}
use mo_vm.Error.{HypervisorError}
use mo_vm.Error.Action.{Action, Runs, Runs-then, ◌>>◌}
use mo_vm.GuestMemory.{GuestMemory, Image, IsBacked, overlay, write}

pub IsBacked-within :
    (f : Image) (a n b k : ℕ) → IsBacked f a n → a ≤ b → b + max 1 k ≤ a + n → IsBacked f b k
IsBacked-within f a n b k h p q i lt =
    λ miss. h (b - a + i) (omega arith) (ap f {x = a + (b - a + i)} (omega arith) ∙ miss)

-- Overwriting keeps every address backed.
pub IsBacked-overlay :
    (f : Image) (a n : ℕ) (bs : List ℕ) (b : ℕ) → IsBacked f a n → IsBacked (overlay f bs b) a n
IsBacked-overlay f a n bs b h i lt miss = ground (arith, h i lt, get_elem?-ne-none bs (a + i - b))

-- The `n` bytes from `a` on, if all are backed.
abbrev pub bytes_at : Image → ℕ → ℕ → Option (List ℕ)
bytes_at f zero a = some []
bytes_at f (suc n) a = elim (f a) [
  | none ↦ none
  | some b ↦ elim (bytes_at f n (suc a)) [ none ↦ none | some bs ↦ some (b ∷ bs) ]
]

-- A range apart from a write reads as before.
pub bytes_at-overlay_apart :
    (f : Image) (bs : List ℕ) (b n a : ℕ)
    → (a + n ≤ b) ⊎ (b + length bs ≤ a)
    → bytes_at (overlay f bs b) n a ≡ bytes_at f n a
bytes_at-overlay_apart f bs b zero a h = refl
bytes_at-overlay_apart f bs b (suc n) a h = ground (arith, bytes_at-overlay_apart f bs b n (suc a))

bytes_at_of :
    (f : Image) (bs : List ℕ) (a : ℕ)
    → ((i : ℕ) → i < length bs → f (a + i) ≡ get_elem? bs i)
    → bytes_at f (length bs) a ≡ some bs
bytes_at_of f [] a h = refl
bytes_at_of f (b ∷ bs) a h = ground (
  arith,
  ap f {x = a} {y = a + 0} (omega arith),
  h 0 (omega arith),
  bytes_at_of f bs (suc a) (λ i lt. ap f (omega arith) ∙ h (suc i) (omega arith)),
)

-- What was written last reads back.
pub bytes_at-overlay_self :
    (f : Image) (bs : List ℕ) (a : ℕ) → bytes_at (overlay f bs a) (length bs) a ≡ some bs
bytes_at-overlay_self f bs a =
    bytes_at_of (overlay f bs a) bs a
      (λ i lt. ground (arith, ap (get_elem? bs) {x = a + i - a} {y = i} (omega arith)))

-- Reading depends on the bytes of the range alone.
pub bytes_at_cong :
    (f g : Image) (n a : ℕ)
    → ((i : ℕ) → i < n → f (a + i) ≡ g (a + i))
    → bytes_at f n a ≡ bytes_at g n a
bytes_at_cong f g zero a h = refl
bytes_at_cong f g (suc n) a h = ground (
  arith,
  ap f {x = a} {y = a + 0} (omega arith),
  ap g {x = a} {y = a + 0} (omega arith),
  h 0 (omega arith),
  bytes_at_cong f g n (suc a)
      λ i lt. ap f (omega arith) ∙ h (suc i) (omega arith) ∙ ap g (omega arith),
)

-- The eight bytes at `a` as a 64-bit word.
unfoldable pub read_u64 : Image → ℕ → Option ℕ
read_u64 f a = elim (bytes_at f 8 a) [ none ↦ none | some bs ↦ some (from_le_bytes bs) ]

pub read_u64-overlay_apart :
    (f : Image) (bs : List ℕ) (b a : ℕ)
    → (a + 8 ≤ b) ⊎ (b + length bs ≤ a)
    → read_u64 (overlay f bs b) a ≡ read_u64 f a
unfolding read_u64
read_u64-overlay_apart f bs b a h = cc (bytes_at-overlay_apart f bs b 8 a h)

pub read_u64-overlay_self :
    (f : Image) (v a : ℕ) → v < 2 ^ 64 → read_u64 (overlay f (to_le_bytes 8 v) a) a ≡ some v
unfolding read_u64
read_u64-overlay_self f v a h =
    ground (arith, bytes_at-overlay_self f (to_le_bytes 8 v) a, from_le_bytes-to_le_bytes 8 v h)

pub read_u64_cong :
    (f g : Image) (a : ℕ) → ((i : ℕ) → i < 8 → f (a + i) ≡ g (a + i)) → read_u64 f a ≡ read_u64 g a
unfolding read_u64
read_u64_cong f g a h = cc (bytes_at_cong f g 8 a h)

-- A part of what was written last reads back as that part.
pub bytes_at-overlay_part :
    (f : Image) (bs : List ℕ) (a k n : ℕ)
    → k + n ≤ length bs
    → bytes_at (overlay f bs a) n (a + k) ≡ some (take n (drop k bs))
bytes_at-overlay_part f bs a k n h =
    subst (λ l. bytes_at (overlay f bs a) l (a + k) ≡ some (take n (drop k bs))) long
      (bytes_at_of (overlay f bs a) (take n (drop k bs)) (a + k) λ i lt. ground (
        arith,
        long,
        get_elem?-take n (drop k bs) i,
        get_elem?-drop k bs i,
        ap (get_elem? bs) {x = a + k + i - a} {y = k + i} (omega arith),
      ))
  where
    long : length (take n (drop k bs)) ≡ n
    long = omega (arith, length-take n (drop k bs), length-drop k bs)

-- Zeros read back as the word 0.
pub read_u64-overlay-zeroed :
    (f : Image) (n a k : ℕ) → k + 8 ≤ n → read_u64 (overlay f (zeroed n) a) (a + k) ≡ some 0
unfolding read_u64
read_u64-overlay-zeroed f n a k h = rw (
  bytes_at-overlay_part f (zeroed n) a k 8 (omega (arith, length-zeroed n)),
  take-drop-zeroed n k 8 h,
  read_u64,
)

module _ (G : GuestMemory) where
  byte-write :
      (m : G.Mem) (bs : List ℕ) (a : ℕ)
      → IsBacked (G.byte m) a (length bs)
      → G.byte (G.write_slice m bs a).0 ≡ overlay (G.byte m) bs a
  byte-write m bs a h = fun_ext λ x. G.write_byte m bs a x (G.write_total m bs a h)

  -- A write into backed memory succeeds, and its image is the overlay.
  pub write-Runs :
      (m : G.Mem) (bs : List ℕ) (a : ℕ) (e : String → HypervisorError)
      → IsBacked (G.byte m) a (length bs)
      → Runs (write G bs a e) m (λ _ t. G.byte t ≡ overlay (G.byte m) bs a)
  unfolding write
  write-Runs m bs a e h =
      (tt, (G.write_slice m bs a).0, rw (G.write_total m bs a h) refl, byte-write m bs a h)

  -- A write within memory that is backed up to `size` keeps it so.
  pub write_within-Runs :
      (size : ℕ) (bs : List ℕ) (a : ℕ) (e : String → HypervisorError) (m : G.Mem)
      → IsBacked (G.byte m) 0 size
      → a + max 1 (length bs) ≤ size
      → Runs
          (write G bs a e)
          m
          λ _ t. (G.byte t ≡ overlay (G.byte m) bs a) × IsBacked (G.byte t) 0 size
  write_within-Runs size bs a e m backed room =
      let (u, t, r, eq) =
        write-Runs m bs a e
          (IsBacked-within (G.byte m) 0 size a (length bs) backed (omega arith) (omega arith)) in
      (
        u,
        t,
        r,
        (
          eq,
          subst (λ f. IsBacked f 0 size) (sym eq) (IsBacked-overlay (G.byte m) 0 size bs a backed),
        ),
      )

  -- A write, and what follows it, in a memory that is backed up to `size`.
  pub write_then-Runs :
      {B : Type 0} (size : ℕ) (bs : List ℕ) (a : ℕ) (e : String → HypervisorError)
      (k : Action G.Mem B) (m : G.Mem) (Q : B → G.Mem → Type 0)
      → IsBacked (G.byte m) 0 size
      → a + max 1 (length bs) ≤ size
      → ((t : G.Mem) → G.byte t ≡ overlay (G.byte m) bs a → IsBacked (G.byte t) 0 size → Runs k t Q)
      → Runs (write G bs a e >> k) m Q
  write_then-Runs size bs a e k m Q backed room next =
      Runs-then (write G bs a e) k m
        (λ t. (G.byte t ≡ overlay (G.byte m) bs a) × IsBacked (G.byte t) 0 size) Q
        (write_within-Runs size bs a e m backed room) (λ t p. next t p.0 p.1)

-- ===== src/GuestMemory.antt =====
-- Guest physical memory as the program reaches it: `write_slice` and `read_slice` of vm_memory's
-- `Bytes` trait, which is not part of the repository, behind the laws that the program relies on.
-- `byte m a` is the byte at guest address `a`, or `none` where no region holds `a`.
pub mod Flat
pub mod Image
use mo_vm.Common.{
  ℕ, ◌+◌, ◌-◌, ◌<◌, max, ◌≡◌, ◌≢◌, ◌&&◌, Option, none, some, List, length, get_elem?, leb, ltb,
  if◌then◌else◌, String,
}
use mo_vm.Error.{HypervisorError, check}
use mo_vm.Error.Action.{Action}

abbrev pub Image : Type 0
Image = ℕ → Option ℕ

-- Every address of the range is backed, and the first one even if the range is empty.
abbrev pub IsBacked : Image → ℕ → ℕ → Type 0
IsBacked f a n = (i : ℕ) → i < max 1 n → f (a + i) ≢ none

-- The image with `bs` written over the addresses from `a` on.
abbrev pub overlay : Image → List ℕ → ℕ → Image
overlay f bs a x = if leb a x && ltb (x - a) (length bs) then get_elem? bs (x - a) else f x

-- A failure is reported by its text. A failed write may have written a part.
pub record GuestMemory : Type 1 where
  pub Mem : Type 0
  pub byte : Mem → Image
  pub write_slice : Mem → List ℕ → ℕ → Mem × Option String
  pub read_slice : Mem → List ℕ → ℕ → List ℕ × Option String
  pub write_total :
      (m : Mem) (bs : List ℕ) (a : ℕ)
      → IsBacked (byte m) a (length bs)
      → (write_slice m bs a).1 ≡ none
  pub write_byte :
      (m : Mem) (bs : List ℕ) (a x : ℕ)
      → (write_slice m bs a).1 ≡ none
      → byte (write_slice m bs a).0 x ≡ overlay (byte m) bs a x
  pub read_length : (m : Mem) (buf : List ℕ) (a : ℕ) → length (read_slice m buf a).0 ≡ length buf
  pub read_total :
      (m : Mem) (buf : List ℕ) (a : ℕ)
      → IsBacked (byte m) a (length buf)
      → (read_slice m buf a).1 ≡ none
  pub read_byte :
      (m : Mem) (buf : List ℕ) (a i : ℕ)
      → (read_slice m buf a).1 ≡ none
      → i < length buf
      → get_elem? (read_slice m buf a).0 i ≡ byte m (a + i)

module _ (G : GuestMemory) where
  -- `memory.write_slice(bs, addr).map_err(e)?`
  unfoldable pub write : List ℕ → ℕ → (String → HypervisorError) → Action G.Mem (Unit {0})
  write bs a e m = let (m', r) = G.write_slice m bs a in (m', check r e)

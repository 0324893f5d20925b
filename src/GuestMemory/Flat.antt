-- ===== src/GuestMemory/Flat.antt =====
-- A memory of one region that starts at address 0, which meets the laws of `GuestMemory`.
use mo_vm.Common.{
  ℕ, zero, suc, ◌+◌, ◌-◌, ◌<◌, max, ◌≡◌, refl, ◌&&◌, Option, none, some, List, [], ◌∷◌, length,
  get_elem?, get_or, leb, ltb, if◌then◌else◌, String, arith, ap, ◌∙◌,
}
use mo_vm.GuestMemory.{GuestMemory, Image, IsBacked, overlay}

pub record Flat : Type 0 where
  pub size : ℕ
  pub cell : ℕ → ℕ

abbrev pub byte : Flat → Image
byte m a = if ltb a m.size then some (m.cell a) else none

unfoldable pub fits : Flat → ℕ → ℕ → Option String
fits m n a = if leb (a + max 1 n) m.size then none else some "Invalid guest address"

unfoldable pub write_slice : Flat → List ℕ → ℕ → Flat × Option String
unfolding fits
write_slice m bs a = (
  if leb (a + max 1 (length bs)) m.size
      then record m {
        cell = λ x. if leb a x && ltb (x - a) (length bs) then get_or bs (x - a) 0 else m.cell x;
      }
      else m,
  fits m (length bs) a,
)

unfoldable pub read_from : Flat → ℕ → ℕ → List ℕ
read_from m zero a = []
read_from m (suc n) a = m.cell a ∷ read_from m n (suc a)

unfoldable pub read_slice : Flat → List ℕ → ℕ → List ℕ × Option String
unfolding fits
read_slice m buf a = (
  if leb (a + max 1 (length buf)) m.size then read_from m (length buf) a else buf,
  fits m (length buf) a,
)

fits_total : (m : Flat) (n a : ℕ) → IsBacked (byte m) a n → fits m n a ≡ none
unfolding fits
fits_total m n a h = ground (arith, h (max 1 n - 1))

get_or-get_elem? : (bs : List ℕ) (i : ℕ) → i < length bs → some (get_or bs i 0) ≡ get_elem? bs i
get_or-get_elem? [] i h = absurd (omega arith)
get_or-get_elem? (b ∷ bs) zero h = refl
get_or-get_elem? (b ∷ bs) (suc i) h = get_or-get_elem? bs i (omega arith)

pub write_byte :
    (m : Flat) (bs : List ℕ) (a x : ℕ)
    → (write_slice m bs a).1 ≡ none
    → byte (write_slice m bs a).0 x ≡ overlay (byte m) bs a x
unfolding write_slice fits
write_byte m bs a x h = ground (arith, get_or-get_elem? bs (x - a))

pub length-read_from : (m : Flat) (n a : ℕ) → length (read_from m n a) ≡ n
unfolding read_from
length-read_from m zero a = refl
length-read_from m (suc n) a = ap suc (length-read_from m n (suc a))

get_elem?-read_from :
    (m : Flat) (n a i : ℕ) → i < n → get_elem? (read_from m n a) i ≡ some (m.cell (a + i))
unfolding read_from
get_elem?-read_from m zero a i h = absurd (omega arith)
get_elem?-read_from m (suc n) a zero h = ap (λ k. some (m.cell k)) (omega arith)
get_elem?-read_from m (suc n) a (suc i) h =
    get_elem?-read_from m n (suc a) i (omega arith) ∙ ap (λ k. some (m.cell k)) (omega arith)

pub read_length : (m : Flat) (buf : List ℕ) (a : ℕ) → length (read_slice m buf a).0 ≡ length buf
unfolding read_slice
read_length m buf a = ground (arith, length-read_from m (length buf) a)

pub read_byte :
    (m : Flat) (buf : List ℕ) (a i : ℕ)
    → (read_slice m buf a).1 ≡ none
    → i < length buf
    → get_elem? (read_slice m buf a).0 i ≡ byte m (a + i)
unfolding read_slice fits
read_byte m buf a i h lt = ground (arith, get_elem?-read_from m (length buf) a i lt)

pub write_total :
    (m : Flat) (bs : List ℕ) (a : ℕ)
    → IsBacked (byte m) a (length bs)
    → (write_slice m bs a).1 ≡ none
unfolding write_slice
write_total m bs a h = fits_total m (length bs) a h

pub read_total :
    (m : Flat) (buf : List ℕ) (a : ℕ)
    → IsBacked (byte m) a (length buf)
    → (read_slice m buf a).1 ≡ none
unfolding read_slice
read_total m buf a h = fits_total m (length buf) a h

abbrev pub flat : GuestMemory
flat = record {
  Mem = Flat;
  byte = byte;
  write_slice = write_slice;
  read_slice = read_slice;
  write_total = write_total;
  write_byte = write_byte;
  read_length = read_length;
  read_total = read_total;
  read_byte = read_byte;
}

-- `n` bytes of zeros.
abbrev pub zeros : ℕ → Flat
zeros n = record { size = n; cell = λ _. 0 }

pub zeros-IsBacked : (n : ℕ) → 0 < n → IsBacked (byte (zeros n)) 0 n
zeros-IsBacked n h i lt = ground arith

-- ===== src/Virtio/Block/Disk.antt =====
-- `std::fs::File` on a regular file, as the block device uses it: bytes, a cursor, and whether it was
-- opened for writing. The file system's own failures (a full disk, a broken medium) are not modelled.
use mo_vm.Common.{
  dec_lt, get_elem?-append, get_elem?-drop, get_elem?-zeroed, ◌<◌, ◌≤◌, ◌⊎◌, ◌∙◌, sym, get_elem?,
  zeroed, length-zeroed, list_ext, get_elem?-none, ℕ, zero, suc, ◌+◌, ◌-◌, ◌^◌, max, min, ◌≡◌, refl,
  ap, ◌&&◌, Bool, Option, none, some, List, [], ◌∷◌, length, get_or, leb, ltb, if◌then◌else◌, arith,
  drop, ◌++◌, length-append, length-drop,
}
use mo_vm.Error.{IoError, unnamed}

-- `at x` is the byte at `x` where `x < size`.
pub record File : Type 0 where
  pub size : ℕ
  pub at : ℕ → ℕ
  pub cursor : ℕ
  pub writable : Bool

abbrev pub invalid_argument : IoError
invalid_argument = record { kind = unnamed 22; message = "Invalid argument (os error 22)" }

abbrev pub unexpected_eof : IoError
unexpected_eof = record { kind = unnamed 0; message = "failed to fill whole buffer" }

abbrev pub bad_descriptor : IoError
bad_descriptor = record { kind = unnamed 9; message = "Bad file descriptor (os error 9)" }

-- `seek(SeekFrom::Start(offset))`: the system takes the offset as signed.
unfoldable pub seek : File → ℕ → File × Option IoError
seek f offset =
    if ltb offset (2 ^ 63) then (record f { cursor = offset }, none) else (f, some invalid_argument)

unfoldable pub bytes_from : File → ℕ → ℕ → List ℕ
bytes_from f zero x = []
bytes_from f (suc n) x = f.at x ∷ bytes_from f n (suc x)

-- `read_exact(&mut buf)`: at the end of the file it fills what it can and fails.
unfoldable pub read_exact : File → List ℕ → File × List ℕ × Option IoError
read_exact f buf =
    let there : ℕ = min (length buf) (f.size - f.cursor) in
    (
      record f { cursor = f.cursor + there },
      bytes_from f there f.cursor ++ drop there buf,
      (if leb (length buf) (f.size - f.cursor) then none else some unexpected_eof),
    )

-- `write_all(bs)`: a write past the end fills the gap with zeros. An empty write does nothing.
unfoldable pub write_all : File → List ℕ → File × Option IoError
write_all f [] = (f, none)
write_all f (b ∷ bs) =
    if f.writable
    then (
      record f {
        size = max f.size (f.cursor + suc (length bs));
        at = λ x.
            if leb f.cursor x && ltb (x - f.cursor) (suc (length bs))
            then get_or (b ∷ bs) (x - f.cursor) 0
            else if ltb x f.size
            then f.at x
            else 0;
        cursor = f.cursor + suc (length bs);
      },
      none,
    )
    else (f, some bad_descriptor)

-- The same bytes, whatever the cursor.
pub record SameContent (f g : File) : Type 0 where
  pub size : g.size ≡ f.size
  pub at : g.at ≡ f.at
  pub writable : g.writable ≡ f.writable

pub seek-SameContent : (f : File) (offset : ℕ) → SameContent f (seek f offset).0
unfolding seek
seek-SameContent f offset = ground arith

pub read_exact-SameContent : (f : File) (buf : List ℕ) → SameContent f (read_exact f buf).0
unfolding read_exact
read_exact-SameContent f buf = record { size = refl; at = refl; writable = refl }

length-bytes_from : (f : File) (n x : ℕ) → length (bytes_from f n x) ≡ n
unfolding bytes_from
length-bytes_from f zero x = refl
length-bytes_from f (suc n) x = ap suc (length-bytes_from f n (suc x))

-- A read never changes the length of the buffer.
pub length-read_exact : (f : File) (buf : List ℕ) → length (read_exact f buf).1 ≡ length buf
unfolding read_exact
length-read_exact f buf =
    let there : ℕ = min (length buf) (f.size - f.cursor) in
    omega (
      arith,
      length-append (bytes_from f there f.cursor) (drop there buf),
      length-bytes_from f there f.cursor,
      length-drop there buf,
    )

get_elem?-bytes_from :
    (f : File) (n x i : ℕ) → i < n → get_elem? (bytes_from f n x) i ≡ some (f.at (x + i))
unfolding bytes_from
get_elem?-bytes_from f zero x i lt = absurd (omega arith)
get_elem?-bytes_from f (suc n) x zero lt = ap (λ y. some (f.at y)) (omega arith)
get_elem?-bytes_from f (suc n) x (suc i) lt =
    get_elem?-bytes_from f n (suc x) i (omega arith) ∙ ap (λ y. some (f.at y)) (omega arith)

-- The byte at an address, and zero past the end.
abbrev pub byte_at : File → ℕ → ℕ
byte_at f x = if ltb x f.size then f.at x else 0

-- A read into a buffer of zeros gives the bytes from the cursor on, and zeros past the end.
get_elem?-read_exact :
    (f : File) (n i : ℕ)
    → i < n
    → get_elem? (read_exact f (zeroed n)).1 i ≡ some (byte_at f (f.cursor + i))
unfolding read_exact
get_elem?-read_exact f n i lt =
    let m : ℕ = min (length (zeroed n)) (f.size - f.cursor) in
    let front : List ℕ = bytes_from f m f.cursor in
    elim (dec_lt i m) [
      | yes near ↦ ground (
        arith,
        get_elem?-append front (drop m (zeroed n)) i,
        length-bytes_from f m f.cursor,
        get_elem?-bytes_from f m f.cursor i near,
      )
      | no far ↦ ground (
        arith,
        get_elem?-append front (drop m (zeroed n)) i,
        length-bytes_from f m f.cursor,
        get_elem?-drop m (zeroed n) (i - length front),
        get_elem?-zeroed n (m + (i - length front)),
        length-zeroed n,
      )
    ]

-- Two files that agree from their cursors on give the same bytes.
pub read_exact_cong :
    (f g : File) (n : ℕ)
    → ((i : ℕ) → i < n → byte_at f (f.cursor + i) ≡ byte_at g (g.cursor + i))
    → (read_exact f (zeroed n)).1 ≡ (read_exact g (zeroed n)).1
read_exact_cong f g n h = list_ext (read_exact f (zeroed n)).1 (read_exact g (zeroed n)).1 λ i.
    elim (dec_lt i n) [
      | yes lt ↦
          get_elem?-read_exact f n i lt ∙ ap some (h i lt) ∙ sym (get_elem?-read_exact g n i lt)
      | no ge ↦
          get_elem?-none (read_exact f (zeroed n)).1 i
            (omega (arith, length-read_exact f (zeroed n), length-zeroed n, ge))
          ∙ sym (
              get_elem?-none (read_exact g (zeroed n)).1 i
                (omega (arith, length-read_exact g (zeroed n), length-zeroed n, ge)))
    ]

-- A write leaves the bytes before and behind it.
pub write_all_apart :
    (f : File) (bs : List ℕ) (x : ℕ)
    → (x < f.cursor) ⊎ (f.cursor + length bs ≤ x)
    → byte_at (write_all f bs).0 x ≡ byte_at f x
unfolding write_all
write_all_apart f [] x h = refl
write_all_apart f (b ∷ bs) x h = ground arith

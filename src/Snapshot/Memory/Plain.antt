-- ===== src/Snapshot/Memory/Plain.antt =====
-- Regions as a start and bytes, which meet the laws of `Mapping`.
use mo_vm.Common.{
  ℕ, ◌+◌, ◌≤◌, ◌<◌, ◌≡◌, refl, ◌≢◌, ◌&&◌, String, Option, none, some, List, [], ◌∷◌, ◌++◌, length,
  take, drop, splice, leb, ltb, if◌then◌else◌, arith, length-splice, Bool, Option-cases, inl, inr,
}
use mo_vm.Snapshot.Memory.{Mapping}

pub record Plain : Type 0 where
  pub start : ℕ
  pub bytes : List ℕ

abbrev inside : Plain → ℕ → ℕ → Bool
inside r offset n = leb (offset + n) (length r.bytes)

abbrev pub read_slice : Plain → List ℕ → ℕ → List ℕ × Option String
read_slice r buf offset =
    if inside r offset (length buf)
    then (take (length buf) (drop offset r.bytes), none)
    else (buf, some "Invalid offset")

abbrev pub write_slice : Plain → List ℕ → ℕ → Plain × Option String
write_slice r bs offset =
    if inside r offset (length bs)
    then (record r { bytes = splice r.bytes offset bs }, none)
    else (r, some "Invalid offset")

abbrev holds : Plain → ℕ → Bool
holds r a = leb r.start a && ltb a (r.start + length r.bytes)

abbrev behind_of :
    Plain → Option (List Plain × Plain × List Plain) → Option (List Plain × Plain × List Plain)
behind_of r none = none
behind_of r (some (before, q, behind)) = some (r ∷ before, q, behind)

unfoldable pub find_region : List Plain → ℕ → Option (List Plain × Plain × List Plain)
find_region [] a = none
find_region (r ∷ rs) a =
    let rest = behind_of r (find_region rs a) in if holds r a then some ([], r, rs) else rest

pub find_some :
    (rs before : List Plain) (r : Plain) (behind : List Plain) (a : ℕ)
    → find_region rs a ≡ some (before, r, behind)
    → (rs ≡ before ++ (r ∷ behind)) × (r.start ≤ a) × (a < r.start + length r.bytes)
unfolding find_region
find_some [] before r behind a e = ground arith
find_some (q ∷ rs) before r behind a e = elim (Option-cases (find_region rs a)) [
  | inl missing ↦ ground arith
  | inr ((before', r', behind'), found) ↦ ground (arith, find_some rs before' r' behind' a found)
]

pub find_none :
    (before : List Plain) (r : Plain) (behind : List Plain) (a : ℕ)
    → r.start ≤ a
    → a < r.start + length r.bytes
    → find_region (before ++ (r ∷ behind)) a ≢ none
unfolding find_region
find_none [] r behind a h k e = ground arith
find_none (q ∷ before) r behind a h k e = ground (arith, find_none before r behind a h k)

pub write_inside :
    (r : Plain) (bs : List ℕ) (offset : ℕ)
    → offset + length bs ≤ length r.bytes
    → ((write_slice r bs offset).1 ≡ none)
      × ((write_slice r bs offset).0.bytes ≡ splice r.bytes offset bs)
write_inside r bs offset h = ground arith

pub write_place :
    (r : Plain) (bs : List ℕ) (offset : ℕ)
    → ((write_slice r bs offset).0.start ≡ r.start)
      × (length (write_slice r bs offset).0.bytes ≡ length r.bytes)
write_place r bs offset = ground (arith, length-splice r.bytes offset bs)

pub read_inside :
    (r : Plain) (buf : List ℕ) (offset : ℕ)
    → offset + length buf ≤ length r.bytes
    → read_slice r buf offset ≡ (take (length buf) (drop offset r.bytes), none)
read_inside r buf offset h = ground arith

abbrev pub plain : Mapping
plain = record {
  Region = Plain;
  start_addr = λ r. r.start;
  len = λ r. length r.bytes;
  contents = λ r. r.bytes;
  length-contents = λ r. refl;
  read_slice = read_slice;
  write_slice = write_slice;
  find_region = find_region;
  read_inside = λ r buf offset h _. read_inside r buf offset h;
  write_inside = λ r bs offset h _. write_inside r bs offset h;
  write_place = write_place;
  find_some = find_some;
  find_none = find_none;
}

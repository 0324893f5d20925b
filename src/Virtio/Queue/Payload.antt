-- ===== src/Virtio/Queue/Payload.antt =====
-- What a driver sends in a chain: the bytes of guest memory that its descriptors name, as a
-- description that
-- the loops of the devices over descriptors are held against.
use mo_vm.Common.{
  ℕ, zero, suc, ◌+◌, ◌<◌, ◌≡◌, refl, ap, sym, ◌∙◌, Bool, none, some, Option-cases, inl, inr, List,
  [], ◌∷◌, ◌++◌, map, length, get_elem?, zeroed, length-zeroed, list_ext, arith, if◌then◌else◌,
  get_elem?-none, get_elem?-ne-none, dec_lt,
}
use mo_vm.GuestMemory.{GuestMemory, Image}
use mo_vm.GuestMemory.Image.{bytes_at}
use mo_vm.Virtio.Queue.{Descriptor}

abbrev pub filter : (Descriptor → Bool) → List Descriptor → List Descriptor
filter p [] = []
filter p (d ∷ ds) = let rest = filter p ds in if p d then d ∷ rest else rest

abbrev pub flatten : List (List ℕ) → List ℕ
flatten [] = []
flatten (bs ∷ bss) = bs ++ flatten bss

bytes_at-length : (f : Image) (n a : ℕ) (bs : List ℕ) → bytes_at f n a ≡ some bs → length bs ≡ n
bytes_at-length f zero a bs e = ground arith
bytes_at-length f (suc n) a bs e = elim (Option-cases (f a)) [
  | inl missing ↦ ground arith
  | inr (b, here) ↦ elim (Option-cases (bytes_at f n (suc a))) [
    | inl missing ↦ ground arith
    | inr (rest, more) ↦ ground (arith, bytes_at-length f n (suc a) rest more)
  ]
]

bytes_at-get :
    (f : Image) (n a : ℕ) (bs : List ℕ)
    → bytes_at f n a ≡ some bs
    → (i : ℕ) → i < n
    → f (a + i) ≡ get_elem? bs i
bytes_at-get f zero a bs e i lt = absurd (omega arith)
bytes_at-get f (suc n) a bs e zero lt =
    ap f {x = a + 0} {y = a} (omega arith) ∙ (elim (Option-cases (f a)) [
      | inl missing ↦ ground arith
      | inr (b, here) ↦ elim (Option-cases (bytes_at f n (suc a))) [
        | inl missing ↦ ground arith
        | inr (rest, more) ↦ ground arith
      ]
    ])
bytes_at-get f (suc n) a bs e (suc i) lt =
    ap f {x = a + suc i} {y = suc a + i} (omega arith) ∙ (elim (Option-cases (f a)) [
      | inl missing ↦ ground arith
      | inr (b, here) ↦ elim (Option-cases (bytes_at f n (suc a))) [
        | inl missing ↦ ground arith
        | inr (rest, more) ↦
            let is : b ∷ rest ≡ bs = ground arith in
            bytes_at-get f n (suc a) rest more i (omega arith) ∙ ap (λ l. get_elem? l (suc i)) is
      ]
    ])

module _ (G : GuestMemory) where
  -- The bytes of a descriptor: those of guest memory where it has them all, and otherwise
  -- what a read that fails leaves
  -- in a buffer of zeros.
  abbrev pub data_of : G.Mem → Descriptor → List ℕ
  data_of mem d = elim (bytes_at (G.byte mem) d.len d.addr) [
    | some bs ↦ bs
    | none ↦ (G.read_slice mem (zeroed d.len) d.addr).0
  ]

  abbrev pub payload : (Descriptor → Bool) → G.Mem → List Descriptor → List ℕ
  payload carries mem ds = flatten (map (data_of mem) (filter carries ds))

  read_slice-bytes_at :
      (mem : G.Mem) (n a : ℕ) (bs : List ℕ)
      → bytes_at (G.byte mem) n a ≡ some bs
      → (G.read_slice mem (zeroed n) a).0 ≡ bs
  read_slice-bytes_at mem zero a bs e = list_ext (G.read_slice mem (zeroed 0) a).0 bs λ i.
      get_elem?-none (G.read_slice mem (zeroed 0) a).0 i
        (omega (arith, G.read_length mem (zeroed 0) a, length-zeroed 0))
      ∙ sym (get_elem?-none bs i (omega (arith, bytes_at-length (G.byte mem) 0 a bs e)))
  read_slice-bytes_at mem (suc n) a bs e = list_ext (G.read_slice mem (zeroed (suc n)) a).0 bs same
    where
      long : length bs ≡ suc n
      long = bytes_at-length (G.byte mem) (suc n) a bs e

      done : (G.read_slice mem (zeroed (suc n)) a).1 ≡ none
      done = G.read_total mem (zeroed (suc n)) a λ i lt missing.
          let lt' : i < suc n = omega (arith, lt, length-zeroed (suc n)) in
          get_elem?-ne-none bs i (omega (arith, lt', long))
            (sym (bytes_at-get (G.byte mem) (suc n) a bs e i lt') ∙ missing)

      same : (i : ℕ) → get_elem? (G.read_slice mem (zeroed (suc n)) a).0 i ≡ get_elem? bs i
      same i = elim (dec_lt i (suc n)) [
        | yes lt ↦
            G.read_byte mem (zeroed (suc n)) a i done (omega (arith, length-zeroed (suc n), lt))
            ∙ bytes_at-get (G.byte mem) (suc n) a bs e i lt
        | no ge ↦
            get_elem?-none (G.read_slice mem (zeroed (suc n)) a).0 i
              (omega (arith, G.read_length mem (zeroed (suc n)) a, length-zeroed (suc n), ge))
            ∙ sym (get_elem?-none bs i (omega (arith, long, ge)))
      ]

  pub read_slice-data_of :
      (mem : G.Mem) (d : Descriptor) → (G.read_slice mem (zeroed d.len) d.addr).0 ≡ data_of mem d
  read_slice-data_of mem d = elim (Option-cases (bytes_at (G.byte mem) d.len d.addr)) [
    | inl missing ↦ rw (missing, data_of) refl
    | inr (bs, found) ↦ read_slice-bytes_at mem d.len d.addr bs found ∙ rw (found, data_of) refl
  ]

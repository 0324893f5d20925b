-- ===== src/Snapshot/Format.antt =====
-- serde, which is not part of the repository, as rust-hypervisor/src/snapshot.rs uses it: the calls that it
-- makes of a serializer and of a deserializer, for the serialized values of any format. An error of
-- a format is an `Outcome`'s error. `Content` fills the interface.
pub mod Content
use mo_vm.Common.{ℕ, ◌^◌, ◌<◌, ◌≡◌, String, List, [], ◌∷◌, ◌++◌, map, refl, sym, subst, ap, ◌∙◌}
use mathlib.Core.List.{append-nil, append_assoc}
use mo_vm.Error.{HypervisorError, Outcome, ok, err, panic}
use mo_vm.Error.Try.{◌>>=◌, ◌>>◌, >>=-eq-ok, ok_inj}

-- The entries that a `MapAccess` gives, one by one; a key may be unreadable.
pub data MapAccess (V : Type 0) : Type 0 where
  finished : MapAccess V
  entry : String → V → MapAccess V → MapAccess V
  broken_key : HypervisorError → MapAccess V

-- How a deserializer drives the visitor of a structure: `visit_map`, or `visit_seq`.
pub data Driven (V : Type 0) : Type 0 where
  by_map : MapAccess V → Driven V
  by_seq : List V → Driven V

pub record Format : Type 1 where
  pub Value : Type 0
  -- A structure that is being written.
  pub Struct : Type 0
  -- Numbers come with their width in bits.
  pub serialize_number : ℕ → ℕ → Outcome Value
  pub serialize_str : String → Outcome Value
  pub serialize_bytes : List ℕ → Outcome Value
  pub serialize_newtype_struct : String → Value → Outcome Value
  pub serialize_tuple : Value → Value → Outcome Value
  pub serialize_seq : List Value → Outcome Value
  pub serialize_struct : String → ℕ → Outcome Struct
  pub serialize_field : Struct → String → Value → Outcome Struct
  pub close : Struct → Outcome Value
  pub deserialize_number : ℕ → Value → Outcome ℕ
  pub deserialize_string : Value → Outcome String
  pub deserialize_byte_buf : Value → Outcome (List ℕ)
  -- Bytes that are borrowed from the input, `<&[u8]>::deserialize`.
  pub deserialize_bytes : Value → Outcome (List ℕ)
  pub deserialize_newtype_struct : String → Value → Outcome Value
  pub deserialize_tuple : Value → Outcome (Value × Value)
  pub deserialize_seq : Value → Outcome (List Value)
  pub deserialize_map : Value → Outcome (Driven Value)
  pub deserialize_struct : String → List String → Value → Outcome (Driven Value)
  pub deserialize_ignored_any : Value → Outcome (Unit {0})
  pub duplicate_field : String → HypervisorError
  pub missing_field : String → HypervisorError
  pub invalid_length : ℕ → String → HypervisorError
  -- The visitors' default `visit_seq` and `visit_map`, by what was expected.
  pub unexpected_seq : String → HypervisorError
  pub unexpected_map : String → HypervisorError

abbrev pub access : {V : Type 0} → List (String × V) → MapAccess V
access [] = finished
access ((key, v) ∷ fields) = entry key v (access fields)

abbrev pub values : {V : Type 0} → List (String × V) → List V
values [] = []
values ((key, v) ∷ fields) = v ∷ values fields

-- What the formats that the program uses document: simple values come back as they were written.
pub record IsFaithful (F : Format) : Type 0 where
  pub number :
      (width n : ℕ) (v : F.Value)
      → n < 2 ^ width
      → F.serialize_number width n ≡ ok v
      → F.deserialize_number width v ≡ ok n
  pub str : (s : String) (v : F.Value) → F.serialize_str s ≡ ok v → F.deserialize_string v ≡ ok s
  pub byte_buf :
      (bs : List ℕ) (v : F.Value) → F.serialize_bytes bs ≡ ok v → F.deserialize_byte_buf v ≡ ok bs
  pub newtype_struct :
      (name : String) (v w : F.Value)
      → F.serialize_newtype_struct name v ≡ ok w
      → F.deserialize_newtype_struct name w ≡ ok v
  pub tuple : (v w t : F.Value) → F.serialize_tuple v w ≡ ok t → F.deserialize_tuple t ≡ ok (v, w)
  pub seq :
      (vs : List F.Value) (v : F.Value) → F.serialize_seq vs ≡ ok v → F.deserialize_seq v ≡ ok vs
  -- The fields of a structure so far.
  pub fields : F.Struct → List (String × F.Value)
  pub fields-serialize_struct :
      (name : String) (n : ℕ) (s : F.Struct) → F.serialize_struct name n ≡ ok s → fields s ≡ []
  pub fields-serialize_field :
      (s : F.Struct) (key : String) (v : F.Value) (t : F.Struct)
      → F.serialize_field s key v ≡ ok t
      → fields t ≡ fields s ++ ((key, v) ∷ [])

-- A format that writes the names of fields, such as JSON, gives them back.
abbrev pub IsSelfDescribing : (F : Format) → IsFaithful F → Type 0
IsSelfDescribing F L =
    (s : F.Struct) (v : F.Value)
    → F.close s ≡ ok v
    → ((name : String) (names : List String)
        → F.deserialize_struct name names v ≡ ok (by_map (access (L.fields s))))
      × (F.deserialize_map v ≡ ok (by_map (access (L.fields s))))

-- A format without them, such as bincode, gives the values in order, and no maps.
abbrev pub IsPositional : (F : Format) → IsFaithful F → Type 0
IsPositional F L =
    (s : F.Struct) (v : F.Value)
    → F.close s ≡ ok v
    → (name : String) (names : List String)
    → F.deserialize_struct name names v ≡ ok (by_seq (values (L.fields s)))

-- The format lends bytes from its input.
abbrev pub Lends : Format → Type 0
Lends F = (bs : List ℕ) (v : F.Value) → F.serialize_bytes bs ≡ ok v → F.deserialize_bytes v ≡ ok bs

module _ (F : Format) where
  write_fields : F.Struct → List (String × Outcome F.Value) → Outcome F.Struct
  write_fields state [] = ok state
  write_fields state ((key, v) ∷ fields) =
      v >>= λ v. F.serialize_field state key v >>= λ state. write_fields state fields

  -- `serialize_struct`, a `serialize_field` with `?` for each field in order, and `end`.
  unfoldable pub serialize_fields : String → ℕ → List (String × Outcome F.Value) → Outcome F.Value
  unfolding write_fields
  serialize_fields name n fields = do
    state ← F.serialize_struct name n
    state ← write_fields state fields
    F.close state

  -- Each field was serialized, and `P` holds of the results under their keys.
  abbrev pub Serialized :
      List (String × Outcome F.Value) → (List (String × F.Value) → Type 0) → Type 0
  Serialized [] P = P []
  Serialized ((key, r) ∷ fields) P =
      (v : F.Value) × (r ≡ ok v) × Serialized fields (λ vs. P ((key, v) ∷ vs))

  -- A structure that could be serialized was closed.
  pub serialize_fields-close :
      (name : String) (n : ℕ) (fields : List (String × Outcome F.Value)) (v : F.Value)
      → serialize_fields name n fields ≡ ok v
      → (s : F.Struct) × (F.close s ≡ ok v)
  unfolding serialize_fields
  serialize_fields-close name n fields v e =
      let (s, _, e') =
        >>=-eq-ok (F.serialize_struct name n)
          (λ state. write_fields state fields >>= λ state. F.close state) e in
      let (t, _, closed) = >>=-eq-ok (write_fields s fields) (λ state. F.close state) e' in
      (t, closed)

  module _ (L : IsFaithful F) where
    write_fields-Serialized :
        (fields : List (String × Outcome F.Value)) (s t : F.Struct)
        (P : List (String × F.Value) → Type 0)
        → write_fields s fields ≡ ok t
        → ((vs : List (String × F.Value)) → L.fields t ≡ L.fields s ++ vs → P vs)
        → Serialized fields P
    unfolding write_fields
    write_fields-Serialized [] s t P e done =
        done [] (ap L.fields (sym (ok_inj s t e)) ∙ sym (append-nil (L.fields s)))
    write_fields-Serialized ((key, r) ∷ fields) s t P e done =
        let (v, written, e') =
          >>=-eq-ok r (λ v. F.serialize_field s key v >>= λ state. write_fields state fields) e in
        let (s', added, e'') =
          >>=-eq-ok (F.serialize_field s key v) (λ state. write_fields state fields) e' in
        (
          v,
          written,
          write_fields-Serialized fields s' t (λ vs. P ((key, v) ∷ vs)) e''
              λ vs h. done ((key, v) ∷ vs) (
                h
                ∙ ap (λ l. l ++ vs) (L.fields-serialize_field s key v s' added)
                ∙ append_assoc (L.fields s) ((key, v) ∷ []) vs),
        )

    -- The fields that were serialized, in order, are those of the structure that was closed.
    pub serialize_fields-Serialized :
        (name : String) (n : ℕ) (fields : List (String × Outcome F.Value)) (v : F.Value)
        (P : List (String × F.Value) → Type 0)
        → serialize_fields name n fields ≡ ok v
        → ((s : F.Struct) → F.close s ≡ ok v → P (L.fields s))
        → Serialized fields P
    unfolding serialize_fields
    serialize_fields-Serialized name n fields v P e done =
        let (s, started, e') =
          >>=-eq-ok (F.serialize_struct name n)
            (λ state. write_fields state fields >>= λ state. F.close state) e in
        let (t, written, closed) = >>=-eq-ok (write_fields s fields) (λ state. F.close state) e' in
        write_fields-Serialized fields s t P written λ vs h.
          subst P (h ∙ ap (λ l. l ++ vs) (L.fields-serialize_struct name n s started))
            (done t closed)

-- ===== src/Snapshot/Format/Content.antt =====
-- Two formats that meet the laws of `Format`: values as trees whose structures keep the names of their
-- fields, and the same trees read by position.
use mo_vm.Common.{
  ℕ, ◌^◌, ◌<◌, ◌≡◌, refl, ap, subst, sym, String, List, [], ◌∷◌, ◌++◌, ltb, lt→ltb, if◌then◌else◌,
}
use mo_vm.Error.{bincode_error, Outcome, ok, err}
use mo_vm.Error.Try.{ok_inj}
use mo_vm.Snapshot.Format.{
  Driven, by_map, by_seq, Format, IsFaithful, IsSelfDescribing, IsPositional, Lends, access, values,
}

mutual
  pub data Content : Type 0 where
    num : ℕ → Content
    text : String → Content
    raw : List ℕ → Content
    newtype : String → Content → Content
    pair : Content → Content → Content
    items : Contents → Content
    structure : Fields → Content

  pub data Contents : Type 0 where
    nil : Contents
    cons : Content → Contents → Contents

  pub data Fields : Type 0 where
    end : Fields
    field : String → Content → Fields → Fields

abbrev pub to_items : List Content → Contents
to_items [] = nil
to_items (c ∷ cs) = cons c (to_items cs)

abbrev pub of_items : Contents → List Content
of_items nil = []
of_items (cons c cs) = c ∷ of_items cs

of_items-to_items : (cs : List Content) → of_items (to_items cs) ≡ cs
of_items-to_items [] = refl
of_items-to_items (c ∷ cs) = ap (◌∷◌ c) (of_items-to_items cs)

abbrev pub to_fields : List (String × Content) → Fields
to_fields [] = end
to_fields ((key, c) ∷ fs) = field key c (to_fields fs)

abbrev pub of_fields : Fields → List (String × Content)
of_fields end = []
of_fields (field key c fs) = (key, c) ∷ of_fields fs

of_fields-to_fields : (fs : List (String × Content)) → of_fields (to_fields fs) ≡ fs
of_fields-to_fields [] = refl
of_fields-to_fields ((key, c) ∷ fs) = ap (◌∷◌ (key, c)) (of_fields-to_fields fs)

abbrev wrong : {A : Type 0} → Outcome A
wrong = err (bincode_error "invalid type")

-- `drive` is how the fields of a structure reach its visitor.
abbrev pub content : (List (String × Content) → Driven Content) → Format
content drive = record {
  Value = Content;
  Struct = List (String × Content);
  serialize_number = λ width n. ok (num n);
  serialize_str = λ s. ok (text s);
  serialize_bytes = λ bs. ok (raw bs);
  serialize_newtype_struct = λ name c. ok (newtype name c);
  serialize_tuple = λ a b. ok (pair a b);
  serialize_seq = λ cs. ok (items (to_items cs));
  serialize_struct = λ name n. ok [];
  serialize_field = λ s key c. ok (s ++ ((key, c) ∷ []));
  close = λ s. ok (structure (to_fields s));
  deserialize_number = λ width c. elim c [
    | num n ↦ if ltb n (2 ^ width) then ok n else err (bincode_error "out of range")
    | _ ↦ wrong
  ];
  deserialize_string = λ c. elim c [ text s ↦ ok s | _ ↦ wrong ];
  deserialize_byte_buf = λ c. elim c [ raw bs ↦ ok bs | _ ↦ wrong ];
  deserialize_bytes = λ c. elim c [ raw bs ↦ ok bs | _ ↦ wrong ];
  deserialize_newtype_struct = λ name c. elim c [ newtype _ d ↦ ok d | _ ↦ wrong ];
  deserialize_tuple = λ c. elim c [ pair a b ↦ ok (a, b) | _ ↦ wrong ];
  deserialize_seq = λ c. elim c [ items cs ↦ ok (of_items cs) | _ ↦ wrong ];
  deserialize_map = λ c. elim c [ structure fs ↦ ok (drive (of_fields fs)) | _ ↦ wrong ];
  deserialize_struct =
      λ name names c. elim c [ structure fs ↦ ok (drive (of_fields fs)) | _ ↦ wrong ];
  deserialize_ignored_any = λ c. ok tt;
  duplicate_field = λ name. bincode_error "duplicate field";
  missing_field = λ name. bincode_error "missing field";
  invalid_length = λ n expected. bincode_error "invalid length";
  unexpected_seq = λ expected. bincode_error "invalid type: sequence";
  unexpected_map = λ expected. bincode_error "invalid type: map";
}

module _ (drive : List (String × Content) → Driven Content) where
  abbrev pub F : Format
  F = content drive

  pub number_back :
      (width n : ℕ) (v : Content)
      → n < 2 ^ width
      → F.serialize_number width n ≡ ok v
      → F.deserialize_number width v ≡ ok n
  number_back width n v h e =
      subst (λ c. F.deserialize_number width c ≡ ok n) (ok_inj (num n) v e)
        (rw (lt→ltb n (2 ^ width) h) refl)

  pub seq_back :
      (cs : List Content) (v : Content) → F.serialize_seq cs ≡ ok v → F.deserialize_seq v ≡ ok cs
  seq_back cs v e =
      subst (λ c. F.deserialize_seq c ≡ ok cs) (ok_inj (items (to_items cs)) v e)
        (ap ok (of_items-to_items cs))

  abbrev pub content-IsFaithful : IsFaithful F
  content-IsFaithful = record {
    number = number_back;
    str = λ s v e. subst (λ c. F.deserialize_string c ≡ ok s) (ok_inj (text s) v e) refl;
    byte_buf = λ bs v e. subst (λ c. F.deserialize_byte_buf c ≡ ok bs) (ok_inj (raw bs) v e) refl;
    newtype_struct = λ name v w e.
        subst (λ c. F.deserialize_newtype_struct name c ≡ ok v) (ok_inj (newtype name v) w e) refl;
    tuple = λ v w t e. subst (λ c. F.deserialize_tuple c ≡ ok (v, w)) (ok_inj (pair v w) t e) refl;
    seq = seq_back;
    fields = λ s. s;
    fields-serialize_struct = λ name n s e. sym (ok_inj [] s e);
    fields-serialize_field = λ s key v t e. sym (ok_inj (s ++ ((key, v) ∷ [])) t e);
  }

  pub driven-close :
      (s : List (String × Content)) (v : Content)
      → F.close s ≡ ok v
      → ((name : String) (names : List String) → F.deserialize_struct name names v ≡ ok (drive s))
        × (F.deserialize_map v ≡ ok (drive s))
  driven-close s v e = (
    λ name names.
        subst (λ c. F.deserialize_struct name names c ≡ ok (drive s))
          (ok_inj (structure (to_fields s)) v e) (ap (λ fs. ok (drive fs)) (of_fields-to_fields s)),
    subst (λ c. F.deserialize_map c ≡ ok (drive s)) (ok_inj (structure (to_fields s)) v e)
        (ap (λ fs. ok (drive fs)) (of_fields-to_fields s)),
  )

  pub content-Lends : Lends F
  content-Lends bs v e = subst (λ c. F.deserialize_bytes c ≡ ok bs) (ok_inj (raw bs) v e) refl

-- Names are kept.
abbrev pub named : List (String × Content) → Driven Content
named fs = by_map (access fs)

-- Names are dropped.
abbrev pub positional : List (String × Content) → Driven Content
positional fs = by_seq (values fs)

pub named-IsSelfDescribing : IsSelfDescribing (content named) (content-IsFaithful named)
named-IsSelfDescribing s v e = driven-close named s v e

pub positional-IsPositional : IsPositional (content positional) (content-IsFaithful positional)
positional-IsPositional s v e = (driven-close positional s v e).0

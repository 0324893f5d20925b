-- ===== src/Snapshot/RoundTrip.antt =====
-- What the serializers of a snapshot write comes back: the parts that the states share.
pub mod Regions
pub mod Vcpus
pub mod Kvm
pub mod States
use mo_vm.Common.{ℕ, ◌^◌, ◌<◌, ◌==◌, ◌≡◌, refl, String, List, map, ==_iff, ap, ◌∙◌}
use mathlib.Core.List.{map-id}
use mo_vm.Error.{Outcome, ok}
use mo_vm.Error.Try.{◌>>=◌, >>=-eq-ok, All, traverse, traverse-traverse}
use mo_vm.Snapshot.Format.{
  Format, IsFaithful, IsSelfDescribing, by_map, access, serialize_fields, Serialized,
  serialize_fields-Serialized,
}
use mo_vm.Snapshot.Serial.{
  Layout, into_struct, serialize_newtype_bytes, deserialize_newtype_bytes, serialize_vec,
  deserialize_vec,
}

module _ (F : Format) (L : IsFaithful F) where
  pub deserialize_vec-serialize_vec :
      {A : Type 0} (P : A → Type 0) (f : A → Outcome F.Value) (g : F.Value → Outcome A) (h : A → A)
      → ((x : A) (y : F.Value) → P x → f x ≡ ok y → g y ≡ ok (h x))
      → (xs : List A) (v : F.Value) → All P xs
      → serialize_vec F f xs ≡ ok v
      → deserialize_vec F g v ≡ ok (map h xs)
  unfolding serialize_vec deserialize_vec
  deserialize_vec-serialize_vec P f g h undoes xs v p e =
      let (vs, each, whole) = >>=-eq-ok (traverse f xs) (λ vs. F.serialize_seq vs) e in
      rw (L.seq vs v whole) (traverse-traverse P f g h undoes xs vs p each)

  pub deserialize_vec-serialize_vec_self :
      {A : Type 0} (P : A → Type 0) (f : A → Outcome F.Value) (g : F.Value → Outcome A)
      → ((x : A) (y : F.Value) → P x → f x ≡ ok y → g y ≡ ok x)
      → (xs : List A) (v : F.Value) → All P xs
      → serialize_vec F f xs ≡ ok v
      → deserialize_vec F g v ≡ ok xs
  deserialize_vec-serialize_vec_self P f g undoes xs v p e =
      deserialize_vec-serialize_vec P f g (λ x. x) undoes xs v p e ∙ ap ok (map-id xs)

  -- A structure as bytes under a name comes back.
  pub into_struct-as_bytes :
      {A : Type 0} (layout : Layout A) (name : String) (a : A) (v : F.Value)
      → layout.Fits a
      → serialize_newtype_bytes F name (layout.as_bytes a) ≡ ok v
      → (deserialize_newtype_bytes F name v >>= into_struct layout) ≡ ok a
  unfolding serialize_newtype_bytes deserialize_newtype_bytes into_struct
  into_struct-as_bytes layout name a v fits e =
      let (w, bytes, whole) =
        >>=-eq-ok (F.serialize_bytes (layout.as_bytes a)) (λ v. F.serialize_newtype_struct name v)
          e in
      rw
        (
          L.newtype_struct name w v whole,
          L.byte_buf (layout.as_bytes a) w bytes,
          layout.length-as_bytes a fits,
          (==_iff layout.size_of layout.size_of).1 refl,
          layout.read-as_bytes a fits,
        )
        refl

  module _ (N : IsSelfDescribing F L) where
    -- The fields that a structure was written with are those that its visitor is given.
    pub visited :
        (name : String) (n : ℕ) (fields : List (String × Outcome F.Value)) (v : F.Value)
        → serialize_fields F name n fields ≡ ok v
        → Serialized F fields λ vs.
          ((name' : String) (names : List String)
            → F.deserialize_struct name' names v ≡ ok (by_map (access vs)))
          × (F.deserialize_map v ≡ ok (by_map (access vs)))
    visited name n fields v e =
        serialize_fields-Serialized F L name n fields v _ e λ s closed. N s v closed

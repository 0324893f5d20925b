-- ===== src/Virtio/Fs/Grants.antt =====
-- Who `check_permission` lets through, against a description by the entries of the list.
use mo_vm.Common.{
  refl, ℕ, ◌<◌, ◌≡◌, ◌≢◌, ◌⊎◌, ◌↔◌, inl, inr, Bool, true, false, ◌&&◌, ◌||◌, List, [], ◌∷◌, ◌==◌,
  arith, some, every, every-get_elem?, counted, get_elem?-counted, ap, ◌∙◌, Bool-cases, not,
}
use mo_vm.Virtio.Fs.Access.{AclEntry, Acl, check_permission, contains, filter, any}

-- Some entry of the list meets `P`.
abbrev pub Exists : (AclEntry → Type 0) → List AclEntry → Type 0
Exists P [] = ⊥
Exists P (e ∷ es) = P e ⊎ Exists P es

any-filter :
    (p q : AclEntry → Bool) (es : List AclEntry)
    → (any p (filter q es) ≡ true) ↔ Exists (λ e. (q e ≡ true) × (p e ≡ true)) es
unfolding any filter
any-filter p q [] = (λ h. cc, λ h. absurd h)
any-filter p q (e ∷ es) =
    (λ h. ground (arith, any-filter p q es), λ h. ground (arith, any-filter p q es))

-- The entry speaks for a caller: one of the group alone where the caller is in the owning group, and
-- one of the user or of the group elsewhere.
abbrev pub Matches : Acl → ℕ → ℕ → AclEntry → Type 0
Matches acl uid gid e = (e.gid ≡ gid) ⊎ ((acl.group ≢ gid) × (e.uid ≡ uid))

Exists-map :
    (P Q : AclEntry → Type 0) (es : List AclEntry)
    → ((e : AclEntry) → P e → Q e)
    → Exists P es
    → Exists Q es
Exists-map P Q [] f h = h
Exists-map P Q (e ∷ es) f (inl h) = inl (f e h)
Exists-map P Q (e ∷ es) f (inr h) = inr (Exists-map P Q es f h)

-- A caller who is not the owner is let through exactly when an entry that speaks for the caller
-- contains all the permissions that are asked for.
pub check_permission-Exists :
    (acl : Acl) (uid gid required : ℕ)
    → acl.owner ≢ uid
    → (check_permission acl uid gid required ≡ true)
      ↔ Exists (λ e. Matches acl uid gid e × (contains e.permissions required ≡ true)) acl.entries
unfolding check_permission
check_permission-Exists acl uid gid required stranger =
    let other : (acl.owner == uid) ≡ false = ground arith in
    let grants : AclEntry → Bool = λ e. contains e.permissions required in
    elim (Bool-cases (acl.group == gid)) [
      | inl member ↦
          let same = any-filter grants (λ e. e.gid == gid) acl.entries in
          rw (other, member, check_permission)
            (
              λ h. Exists-map _ _ acl.entries (λ e g. (ground arith, g.1)) (same.0 h),
              λ h. same.1 (Exists-map _ _ acl.entries (λ e g. (ground arith, g.1)) h),
            )
      | inr outsider ↦
          let either = any-filter grants (λ e. (e.uid == uid) || (e.gid == gid)) acl.entries in
          rw (other, outsider, check_permission)
            (
              λ h. Exists-map _ _ acl.entries (λ e g. (ground arith, g.1)) (either.0 h),
              λ h. either.1 (Exists-map _ _ acl.entries (λ e g. (ground arith, g.1)) h),
            )
    ]

-- All the sets that `AclPermissions` can hold.
abbrev sets : List ℕ
sets = counted 0 16

chain : ℕ → ℕ → ℕ → Bool
chain p q r = not (contains p q && contains q r) || contains p r

sets-chain : every (λ p. every (λ q. every (chain p q) sets) sets) sets ≡ true
unfolding chain
sets-chain = refl

each_set : (f : ℕ → Bool) (p : ℕ) → every f sets ≡ true → p < 16 → f p ≡ true
each_set f p all lt =
    every-get_elem? f sets p p all (get_elem?-counted 0 16 p lt ∙ ap some (omega arith))

-- What contains a set contains its subsets.
contains_trans :
    (p q r : ℕ)
    → p < 16
    → q < 16
    → r < 16
    → contains p q ≡ true
    → contains q r ≡ true
    → contains p r ≡ true
unfolding chain
contains_trans p q r hp hq hr h k =
    let after_p = each_set (λ x. every (λ y. every (chain x y) sets) sets) p sets-chain hp in
    let after_q = each_set (λ y. every (chain p y) sets) q after_p hq in
    let after_r = each_set (chain p q) r after_q hr in ground (arith, after_r)

-- Every entry's permissions are a set that `AclPermissions` can hold.
abbrev pub AllValid : List AclEntry → Type 0
AllValid [] = Unit {0}
AllValid (e ∷ es) = (e.permissions < 16) × AllValid es

Exists-contains :
    (acl : Acl) (uid gid more less : ℕ) (es : List AclEntry)
    → AllValid es
    → more < 16
    → less < 16
    → contains more less ≡ true
    → Exists (λ e. Matches acl uid gid e × (contains e.permissions more ≡ true)) es
    → Exists (λ e. Matches acl uid gid e × (contains e.permissions less ≡ true)) es
Exists-contains acl uid gid more less [] valid hm hl sub h = h
Exists-contains acl uid gid more less (e ∷ es) valid hm hl sub (inl h) =
    inl (h.0, contains_trans e.permissions more less valid.0 hm hl h.1 sub)
Exists-contains acl uid gid more less (e ∷ es) valid hm hl sub (inr h) =
    inr (Exists-contains acl uid gid more less es valid.1 hm hl sub h)

-- With lists that hold permission sets only: a caller other than the owner who is let through for a
-- set of permissions is let through for every set that it contains.
pub check_permission_mono :
    (acl : Acl) (uid gid more less : ℕ)
    → acl.owner ≢ uid
    → AllValid acl.entries
    → more < 16
    → less < 16
    → contains more less ≡ true
    → check_permission acl uid gid more ≡ true
    → check_permission acl uid gid less ≡ true
check_permission_mono acl uid gid more less stranger valid hm hl sub h =
    (check_permission-Exists acl uid gid less stranger).1 (
      Exists-contains acl uid gid more less acl.entries valid hm hl sub
        ((check_permission-Exists acl uid gid more stranger).0 h))

-- ===== src/Virtio/Block/Requests.antt =====
-- `process_request` and its helpers against the requests that `process_queue` has inline.
use mo_vm.Common.{
  ℕ, ◌≡◌, refl, Bool, true, false, List, [], ◌∷◌, arith, Option, none, some, String, from_le_bytes,
  if◌then◌else◌, ap, sym, ◌∙◌,
}
use mo_vm.Error.Action.{Action, after}
use mo_vm.Error.{Outcome, ok, err, panic}
use mo_vm.GuestMemory.{GuestMemory}
use mo_vm.Virtio.Queue.{Descriptor}
use mo_vm.Virtio.Block.{
  Request, finish_read, handle_read, handle_write, inline_read, inline_write, process_request,
  inline_request, on_type, peek,
}

module _ (G : GuestMemory) (block_size : ℕ) where
  handle_read-inline_read :
      (desc : Descriptor) (s : Request G)
      → (handle_read G block_size desc s).1 ≡ ok tt
      → (handle_read G block_size desc s).0 ≡ inline_read G block_size desc s
  unfolding handle_read inline_read finish_read
  handle_read-inline_read desc s e = ground arith

  handle_write-inline_write :
      (desc : Descriptor) (s : Request G)
      → (handle_write G block_size desc s).1 ≡ ok tt
      → (handle_write G block_size desc s).0 ≡ inline_write G block_size desc s
  unfolding handle_write inline_write
  handle_write-inline_write desc s e = ground arith

  -- A run that ends with this status, and what the other code does in its place.
  abbrev Same : ℕ → Request G × Outcome ℕ → Request G × Outcome ℕ → Type 0
  Same status x y = x.1 ≡ ok status → y ≡ x

  on_type-Same :
      (status t : ℕ) {a a' b b' c c' d d' : Request G × Outcome ℕ}
      → Same status a a'
      → Same status b b'
      → Same status c c'
      → Same status d d'
      → Same status (on_type t a b c d) (on_type t a' b' c' d')
  unfolding on_type
  on_type-Same status t p q r u = ground arith

  after-Same :
      (status : ℕ) (x : Request G × Outcome (Unit {0})) (t : Request G)
      (rest rest' : Action (Request G) ℕ)
      → (x.1 ≡ ok tt → x.0 ≡ t)
      → ((s : Request G) → Same status (rest s) (rest' s))
      → Same status (after x (λ _. rest)) (rest' t)
  after-Same status (s, ok tt) t rest rest' p q e = ap rest' (sym (p refl)) ∙ q s e
  after-Same status (s, err x) t rest rest' p q e = ground arith
  after-Same status (s, panic) t rest rest' p q e = ground arith

  guard-Same :
      (status : ℕ) (read_only : Bool) (a : Request G × Outcome ℕ) {b b' : Request G × Outcome ℕ}
      → Same status b b'
      → Same status (if read_only then a else b) (if read_only then a else b')
  guard-Same status true a p = λ e. refl
  guard-Same status false a p = p

  read_type-Same :
      (status : ℕ) (r : Option String) (a : Request G × Outcome ℕ) {b b' : Request G × Outcome ℕ}
      → Same status b b'
      → Same status (elim r [ some _ ↦ a | none ↦ b ]) (elim r [ some _ ↦ a | none ↦ b' ])
  read_type-Same status none a p = p
  read_type-Same status (some _) a p = λ e. refl

  -- Where `process_request` finishes a chain with a status, the code in `process_queue` does the same:
  -- the same disk, the same guest memory, the same used entries and the same status.
  pub process_request-inline_request :
      (read_only : Bool) (descs : List Descriptor) (s : Request G) (status : ℕ)
      → (process_request G block_size read_only descs s).1 ≡ ok status
      → inline_request G block_size read_only descs s
        ≡ process_request G block_size read_only descs s
  unfolding process_request inline_request
  process_request-inline_request read_only [] s status e = refl
  process_request-inline_request read_only (desc ∷ descs) s status e =
      let same = λ (t : Request G). process_request-inline_request read_only descs t status in
      let rest = process_request G block_size read_only descs in
      let rest' = inline_request G block_size read_only descs in
      read_type-Same status (peek G 4 desc.addr s).1 _
        (on_type-Same status (from_le_bytes (peek G 4 desc.addr s).0)
          (after-Same status (handle_read G block_size desc s) _ rest rest'
            (handle_read-inline_read desc s) same)
          (guard-Same status read_only _ (
            after-Same status (handle_write G block_size desc s) _ rest rest'
              (handle_write-inline_write desc s) same))
          (same s) (λ e'. refl))
        e

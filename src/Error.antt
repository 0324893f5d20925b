-- ===== src/Error.antt =====
-- rust-hypervisor/src/error.rs: the one error type, its display text, and the conversions into it.
-- `Outcome` is Rust's `Result<T, HypervisorError>` with a panic as a third case.
-- A `kvm_ioctls::Error` is its errno, a `vm_memory`, `bincode`, `virtio_queue` or FAM error its text.
pub mod Action
pub mod Try
use Prim.Native.String.{◌++◌}
use mo_vm.Common.{ℕ, String, Option, none, some}

-- `std::io::ErrorKind`, as far as the program names its members.
pub data ErrorKind : Type 0 where
  other invalid_input unsupported would_block : ErrorKind
  unnamed : ℕ → ErrorKind

-- `std::io::Error`: its kind and what it displays.
pub record IoError : Type 0 where
  pub kind : ErrorKind
  pub message : String

pub data HypervisorError : Type 0 where
  kvm_error : ℕ → HypervisorError
  io_error : IoError → HypervisorError
  bincode_error : String → HypervisorError
  memory_error : String → HypervisorError
  virtio_error : String → HypervisorError
  unsupported_architecture : HypervisorError
  vcpu_error : String → HypervisorError
  snapshot_error : String → HypervisorError
  thread_spawn_error : String → HypervisorError
  network_error : String → HypervisorError
  fam_error : String → HypervisorError
  generic_error : String → HypervisorError

-- `Display`, as the `#[error]` attributes write it; `strerror` is the text of an errno.
unfoldable pub to_string : (ℕ → String) → HypervisorError → String
to_string strerror (kvm_error n) = "KVM error: " ++ strerror n
to_string strerror (io_error e) = "IO error: " ++ e.message
to_string strerror (bincode_error s) = "Bincode error: " ++ s
to_string strerror (memory_error s) = "Memory error: " ++ s
to_string strerror (virtio_error s) = "Virtio error: " ++ s
to_string strerror unsupported_architecture = "Unsupported architecture"
to_string strerror (vcpu_error s) = "VCPU error: " ++ s
to_string strerror (snapshot_error s) = "Snapshot error: " ++ s
to_string strerror (thread_spawn_error s) = "Thread spawn error: " ++ s
to_string strerror (network_error s) = "Network error: " ++ s
to_string strerror (fam_error s) = "FAM error: " ++ s
to_string strerror (generic_error s) = "Generic error: " ++ s

-- `From<&std::io::Error>`
unfoldable pub from_io_ref : IoError → HypervisorError
from_io_ref e = io_error (record { kind = e.kind; message = e.message })

-- `anyhow::Error`: what `downcast_ref::<std::io::Error>()` finds, and its display text.
pub record Anyhow : Type 0 where
  pub downcast : Option IoError
  pub text : String

-- `From<anyhow::Error>`
unfoldable pub from_anyhow : Anyhow → HypervisorError
from_anyhow e = elim e.downcast [
  | some io ↦ io_error (record { kind = io.kind; message = io.message })
  | none ↦ generic_error e.text
]

-- `From<GuestMemoryError>`
unfoldable pub from_guest_memory : String → HypervisorError
from_guest_memory text = memory_error text

pub data Outcome {ℓ} (A : Type ℓ) : Type ℓ where
  ok : A → Outcome A
  err : HypervisorError → Outcome A
  panic : Outcome A

-- `map_err(|_| e)?` after a call that reports a failure by its text.
abbrev pub check : Option String → (String → HypervisorError) → Outcome (Unit {0})
check none e = ok tt
check (some text) e = err (e text)

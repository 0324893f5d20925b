-- ===== src/Startup.antt =====
-- rust-hypervisor/src/main.rs: what the program does with its arguments, over any machine. `Args::parse` (clap) and
-- the logging are not part of the model; `level` is the choice of the log level.
pub mod Order
pub mod Real
pub mod Booted
mod Tests
use text.Mathlib.Text.{◌==◌ as str_eq}
use mo_vm.Common.{ℕ, String, Bool, true, false, Option, none, some, List, [], ◌∷◌, if◌then◌else◌}
use mo_vm.Error.{HypervisorError, Outcome, ok, err, panic}
use mo_vm.Error.Action.{Action}

pub record Args : Type 0 where
  pub kernel : String
  pub cpus : ℕ
  pub memory : ℕ
  pub disk : Option String
  pub read_only : Bool
  pub net : Option String
  pub peer : Option String
  pub share : List String
  pub save_state : Option String
  pub restore_state : Option String
  pub bootloader : Option String
  pub log_level : String

pub data LevelFilter : Type 0 where
  error_level warn_level info_level debug_level trace_level : LevelFilter

unfoldable pub level : String → LevelFilter
level s =
    if str_eq s "error"
    then error_level
    else if str_eq s "warn"
    then warn_level
    else if str_eq s "debug"
    then debug_level
    else if str_eq s "trace"
    then trace_level
    else info_level

-- The methods of `VirtualMachine` that `main` calls, on the machine and the host that they reach.
pub record Machine : Type 1 where
  pub State : Type 0
  pub new : ℕ → Outcome State
  pub add_virtio_console : Action State (Unit {0})
  pub add_virtio_block : String → Bool → Action State (Unit {0})
  pub add_virtio_net : String → String → Action State (Unit {0})
  pub add_virtio_fs : String → String → Bool → Action State (Unit {0})
  pub restore_state : String → Action State (Unit {0})
  pub load_kernel : String → Action State (Unit {0})
  pub load_bootloader : String → Action State (Unit {0})
  pub run : Action State (Unit {0})
  pub save_state : String → Action State (Unit {0})

-- How far `main` gets: on to what follows, or it returns an error, exits with a code, or panics.
pub data Progress (S : Type 0) : Type 0 where
  goes_on : S → Progress S
  returns : S → HypervisorError → Progress S
  exits : ℕ → Progress S
  panics : Progress S

infixl 5 ◌>>=◌
abbrev pub ◌>>=◌ : {S : Type 0} → Progress S → (S → Progress S) → Progress S
goes_on s >>= f = f s
returns s e >>= f = returns s e
exits n >>= f = exits n
panics >>= f = panics

-- `vm.method(...)?`
abbrev pub question : {S : Type 0} → S × Outcome (Unit {0}) → Progress S
question (s, ok _) = goes_on s
question (s, err e) = returns s e
question (s, panic) = panics

-- `if let Err(e) = vm.method(...) { error!(...); exit(1) }`
abbrev pub or_exit : {S : Type 0} → S × Outcome (Unit {0}) → Progress S
or_exit (s, ok _) = goes_on s
or_exit (s, err e) = exits 1
or_exit (s, panic) = panics

-- `if let Err(e) = vm.method(...) { error!(...) }`
abbrev pub logged : {S : Type 0} → S × Outcome (Unit {0}) → Progress S
logged (s, ok _) = goes_on s
logged (s, err e) = goes_on s
logged (s, panic) = panics

abbrev pub if_some : {S A : Type 0} → Option A → (A → S → Progress S) → S → Progress S
if_some none f s = goes_on s
if_some (some a) f s = f a s

-- `file_name` is `Path::file_name` with its text, if it has one.
module _ (V : Machine) (file_name : String → Option String) where
  abbrev pub tag : String → String
  tag share = elim (file_name share) [ some name ↦ name | none ↦ "shared" ]

  -- `args.peer`, without which the program exits.
  abbrev pub with_peer : Option String → String → V.State → Progress V.State
  with_peer none net_addr s = exits 1
  with_peer (some peer) net_addr s = question (V.add_virtio_net net_addr peer s)

  add_shares : List String → V.State → Progress V.State
  add_shares [] s = goes_on s
  add_shares (share ∷ shares) s =
      question (V.add_virtio_fs (tag share) share false s) >>= add_shares shares

  abbrev pub created : Outcome V.State → Progress V.State
  created (ok s) = goes_on s
  created (err e) = exits 1
  created panic = panics

  -- Steps 3 to 5: the machine, its devices, and the state that is restored.
  unfoldable pub attached : Args → Progress V.State
  unfolding add_shares
  attached args =
      created (V.new args.cpus)
      >>= (λ s. question (V.add_virtio_console s))
      >>= if_some args.disk (λ disk s. question (V.add_virtio_block disk args.read_only s))
      >>= if_some args.net (with_peer args.peer)
      >>= add_shares args.share
      >>= if_some args.restore_state (λ path s. question (V.restore_state path s))

  -- Steps 3 to 6, up to the run.
  unfoldable pub prepared : Args → Progress V.State
  prepared args =
      attached args
      >>= (λ s. or_exit (V.load_kernel args.kernel s))
      >>= if_some args.bootloader (λ path s. or_exit (V.load_bootloader path s))

  unfoldable pub main : Args → Progress V.State
  main args =
      prepared args
      >>= (λ s. logged (V.run s))
      >>= if_some args.save_state (λ path s. question (V.save_state path s))

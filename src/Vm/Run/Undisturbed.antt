-- ===== src/Vm/Run/Undisturbed.antt =====
-- A run in which no vCPU fails and no thread of one panics.
use mo_vm.Common.{ℕ, zero, suc, ◌≡◌, refl, ◌∙◌, ap, Bool, true, false, List, [], ◌∷◌, ◌++◌, arith}
use mo_vm.Vm.Run.{
  Phase, failing, ended, Thread, Shared, Monitor, stopping, done, World, quiet, failure, panicking,
  ThreadStep, sees_stop, sees_running, sees_error, sees_no_error, told_to_stop, told_to_snapshot,
  enters_guest, leaves_guest, raises_flag, MonitorStep, receives, receives_none, flag_raised,
  flag_down, clears_running, was_stopped, sleeps, Step, by_thread, by_monitor, Reaches, begins,
  then_step, fresh_threads, spawned,
}
use mo_vm.Vm.Run.Steps.{AllSilent, AllSilent-replace, ThreadStep-silent, AllSilent-fresh_threads}

-- A thread that can still enter the guest.
abbrev pub live : Phase → Bool
live failing = false
live ended = false
live _ = true

abbrev pub AllLive : List Thread → Type 0
AllLive [] = Unit {0}
AllLive (t ∷ ts) = (live t.phase ≡ true) × AllLive ts

abbrev pub watches : Monitor → Bool
watches stopping = false
watches done = false
watches _ = true

-- Nothing has gone wrong.
pub record IsUndisturbed (w : World) : Type 0 where
  pub running : w.shared.running ≡ true
  pub no_error : w.shared.error_occurred ≡ false
  pub no_report : w.shared.reported ≡ 0
  pub lives : AllLive w.threads
  pub silent : AllSilent w.threads
  pub watching : watches w.monitor ≡ true

AllLive-replace :
    (pre : List Thread) (t t' : Thread) (post : List Thread)
    → (live t.phase ≡ true → live t'.phase ≡ true)
    → AllLive (pre ++ t ∷ post)
    → AllLive (pre ++ t' ∷ post)
AllLive-replace [] t t' post h (m, ms) = (h m, ms)
AllLive-replace (u ∷ pre) t t' post h (m, ms) = (m, AllLive-replace pre t t' post h ms)

AllSilent-at :
    (pre : List Thread) (t : Thread) (post : List Thread)
    → AllSilent (pre ++ t ∷ post)
    → t.messages ≡ []
AllSilent-at [] t post (m, ms) = m
AllSilent-at (u ∷ pre) t post (m, ms) = AllSilent-at pre t post ms

ThreadStep-live :
    {f f' : Shared} {t t' : Thread}
    → ThreadStep quiet f t f' t'
    → f.running ≡ true
    → f.error_occurred ≡ false
    → t.messages ≡ []
    → live t.phase ≡ true
    → (f' ≡ f) × (live t'.phase ≡ true)
ThreadStep-live (sees_stop f ms h) r e m l = ground arith
ThreadStep-live (sees_running f ms h) r e m l = (refl, refl)
ThreadStep-live (sees_error f ms h) r e m l = ground arith
ThreadStep-live (sees_no_error f ms h) r e m l = (refl, refl)
ThreadStep-live (told_to_stop f ms) r e m l = ground arith
ThreadStep-live (told_to_snapshot f ms) r e m l = (refl, refl)
ThreadStep-live (enters_guest f) r e m l = (refl, refl)
ThreadStep-live (leaves_guest f ms) r e m l = (refl, refl)
ThreadStep-live (raises_flag f ms) r e m l = ground arith

MonitorStep-watches :
    {f f' : Shared} {m m' : Monitor}
    → MonitorStep f m f' m'
    → f.running ≡ true
    → f.error_occurred ≡ false
    → f.reported ≡ 0
    → watches m ≡ true
    → (f' ≡ f) × (watches m' ≡ true)
MonitorStep-watches (receives f n h) r e k w = absurd (omega (arith, h, k))
MonitorStep-watches (receives_none f h) r e k w = (refl, refl)
MonitorStep-watches (flag_raised f h) r e k w = ground arith
MonitorStep-watches (flag_down f h) r e k w = (refl, refl)
MonitorStep-watches (clears_running f) r e k w = ground arith
MonitorStep-watches (was_stopped f h) r e k w = ground arith
MonitorStep-watches (sleeps f h) r e k w = (refl, refl)

AllLive-at :
    (pre : List Thread) (t : Thread) (post : List Thread)
    → AllLive (pre ++ t ∷ post)
    → live t.phase ≡ true
AllLive-at [] t post (l, ls) = l
AllLive-at (u ∷ pre) t post (l, ls) = AllLive-at pre t post ls

Step-IsUndisturbed : {w w' : World} → Step quiet w w' → IsUndisturbed w → IsUndisturbed w'
Step-IsUndisturbed (by_thread _ f f' pre t t' post m s) u =
    let messages = AllSilent-at pre t post u.silent in
    let (same, alive) =
      ThreadStep-live s u.running u.no_error messages (AllLive-at pre t post u.lives) in
    record {
      running = ap (λ g. g.running) same ∙ u.running;
      no_error = ap (λ g. g.error_occurred) same ∙ u.no_error;
      no_report = ap (λ g. g.reported) same ∙ u.no_report;
      lives = AllLive-replace pre t t' post (λ l. alive) u.lives;
      silent = AllSilent-replace pre t t' post (ThreadStep-silent s).1 u.silent;
      watching = u.watching;
    }
Step-IsUndisturbed (by_monitor f f' ts m m' s) u =
    let (same, watching) = MonitorStep-watches s u.running u.no_error u.no_report u.watching in
    record {
      running = ap (λ g. g.running) same ∙ u.running;
      no_error = ap (λ g. g.error_occurred) same ∙ u.no_error;
      no_report = ap (λ g. g.reported) same ∙ u.no_report;
      lives = u.lives;
      silent = u.silent;
      watching = watching;
    }

AllLive-fresh_threads : (n : ℕ) → AllLive (fresh_threads n)
AllLive-fresh_threads zero = tt
AllLive-fresh_threads (suc n) = (refl, AllLive-fresh_threads n)

Reaches-IsUndisturbed_at :
    (num_cpus n : ℕ) {w : World} → Reaches (spawned num_cpus) n w → n ≡ 0 → IsUndisturbed w
unfolding spawned
Reaches-IsUndisturbed_at num_cpus n begins e = record {
  running = refl;
  no_error = refl;
  no_report = refl;
  lives = AllLive-fresh_threads num_cpus;
  silent = AllSilent-fresh_threads num_cpus;
  watching = refl;
}
Reaches-IsUndisturbed_at num_cpus n (then_step quiet k u w r s) e =
    Step-IsUndisturbed s (Reaches-IsUndisturbed_at num_cpus k r e)
Reaches-IsUndisturbed_at num_cpus n (then_step failure k u w r s) e = absurd (omega (arith, e))
Reaches-IsUndisturbed_at num_cpus n (then_step panicking k u w r s) e = absurd (omega (arith, e))

-- As long as no vCPU has failed and no vCPU thread has panicked, whatever order the threads run in,
-- the flag stays set, every vCPU thread is in its loop with no message waiting, and the main thread
-- stays in its loop too.
pub Reaches-IsUndisturbed :
    (num_cpus : ℕ) (w : World) → Reaches (spawned num_cpus) 0 w → IsUndisturbed w
Reaches-IsUndisturbed num_cpus w r = Reaches-IsUndisturbed_at num_cpus 0 r refl

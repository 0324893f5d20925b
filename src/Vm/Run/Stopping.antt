-- ===== src/Vm/Run/Stopping.antt =====
-- How long the threads go on once `running` is cleared.
use mo_vm.Common.{
  ℕ, suc, ◌+◌, ◌*◌, ◌<◌, ◌≤◌, ◌≡◌, refl, ◌∙◌, false, List, [], ◌∷◌, ◌++◌, length, arith,
}
use mo_vm.Vm.Run.{
  Phase, at_running, at_error, at_message, in_guest, failing, ended, Thread, Shared, Monitor, World,
  Event, ThreadStep, sees_stop, sees_running, sees_error, sees_no_error, told_to_stop,
  told_to_snapshot, enters_guest, leaves_guest, fails, panics, raises_flag, MonitorStep, receives,
  receives_none, flag_raised, flag_down, clears_running, was_stopped, sleeps, Reaches, spawned,
}
use mo_vm.Vm.Run.Steps.{AllSilent, AllSilent-replace, ThreadStep-silent, Reaches-Sound}

-- How many steps a thread can still take once `running` is cleared and no message waits.
abbrev pub rank : Phase → ℕ
rank at_error = 4
rank at_message = 3
rank in_guest = 2
rank at_running = 1
rank failing = 1
rank ended = 0

ThreadStep-rank :
    {e : Event} {f f' : Shared} {t t' : Thread}
    → ThreadStep e f t f' t'
    → f.running ≡ false
    → t.messages ≡ []
    → rank t'.phase < rank t.phase
ThreadStep-rank (sees_stop f ms h) r m = omega arith
ThreadStep-rank (sees_running f ms h) r m = ground arith
ThreadStep-rank (sees_error f ms h) r m = omega arith
ThreadStep-rank (sees_no_error f ms h) r m = omega arith
ThreadStep-rank (told_to_stop f ms) r m = omega arith
ThreadStep-rank (told_to_snapshot f ms) r m = ground arith
ThreadStep-rank (enters_guest f) r m = omega arith
ThreadStep-rank (leaves_guest f ms) r m = omega arith
ThreadStep-rank (fails f ms) r m = omega arith
ThreadStep-rank (panics f ms) r m = omega arith
ThreadStep-rank (raises_flag f ms) r m = omega arith

abbrev pub work : List Thread → ℕ
work [] = 0
work (t ∷ ts) = rank t.phase + work ts

work-replace :
    (pre : List Thread) (t t' : Thread) (post : List Thread)
    → AllSilent (pre ++ t ∷ post)
    → (t.messages ≡ [] → rank t'.phase < rank t.phase)
    → work (pre ++ t' ∷ post) < work (pre ++ t ∷ post)
work-replace [] t t' post (m, ms) h = omega (arith, h m)
work-replace (u ∷ pre) t t' post (m, ms) h = omega (arith, work-replace pre t t' post ms h)

rank-le : (phase : Phase) → rank phase ≤ 4
rank-le at_running = omega arith
rank-le at_error = omega arith
rank-le at_message = omega arith
rank-le in_guest = omega arith
rank-le failing = omega arith
rank-le ended = omega arith

work-le : (ts : List Thread) → work ts ≤ 4 * length ts
work-le [] = omega arith
work-le (t ∷ ts) = omega (arith, rank-le t.phase, work-le ts)

-- `w` comes about from `start` by steps of which `n` are the vCPU threads'.
pub data Continues (start : World) : ℕ → World → Type 0 where
  stays : Continues start 0 start
  thread_moves :
      (n : ℕ) (e : Event) (f f' : Shared) (pre : List Thread) (t t' : Thread) (post : List Thread)
      (monitor : Monitor)
      → Continues start n (record { shared = f; threads = pre ++ t ∷ post; monitor = monitor })
      → ThreadStep e f t f' t'
      → Continues start
          (suc n)
          (record { shared = f'; threads = pre ++ t' ∷ post; monitor = monitor })
  monitor_moves :
      (n : ℕ) (f f' : Shared) (threads : List Thread) (m m' : Monitor)
      → Continues start n (record { shared = f; threads = threads; monitor = m })
      → MonitorStep f m f' m'
      → Continues start n (record { shared = f'; threads = threads; monitor = m' })

MonitorStep-running :
    {f f' : Shared} {m m' : Monitor}
    → MonitorStep f m f' m'
    → f.running ≡ false
    → f'.running ≡ false
MonitorStep-running (receives f n h) r = r
MonitorStep-running (receives_none f h) r = r
MonitorStep-running (flag_raised f h) r = r
MonitorStep-running (flag_down f h) r = r
MonitorStep-running (clears_running f) r = refl
MonitorStep-running (was_stopped f h) r = r
MonitorStep-running (sleeps f h) r = r

abbrev Winds : World → ℕ → World → Type 0
Winds start n w =
    (n + work w.threads ≤ work start.threads) × (w.shared.running ≡ false) × AllSilent w.threads

Continues-Winds :
    {start w : World} {n : ℕ}
    → Continues start n w
    → start.shared.running ≡ false
    → AllSilent start.threads
    → Winds start n w
Continues-Winds stays r silent = (omega arith, r, silent)
Continues-Winds (thread_moves n e f f' pre t t' post m c s) r silent =
    let (le, down, quiet_ts) = Continues-Winds c r silent in
    let (same, quiet_t) = ThreadStep-silent s in
    let less = work-replace pre t t' post quiet_ts (ThreadStep-rank s down) in
    (omega (arith, le, less), same ∙ down, AllSilent-replace pre t t' post quiet_t quiet_ts)
Continues-Winds (monitor_moves n f f' ts m m' c s) r silent =
    let (le, down, quiet_ts) = Continues-Winds c r silent in
    (le, MonitorStep-running s down, quiet_ts)

-- Once `running` is cleared in a state that a run reaches, the vCPU threads together take at most four
-- times as many steps as there are threads, in whatever order, a stay in the guest with the handling
-- of its exit being one step; the flag is never set again.
pub Continues-bound :
    (num_cpus n : ℕ) (w : World) (k : ℕ) (w' : World)
    → Reaches (spawned num_cpus) n w
    → w.shared.running ≡ false
    → Continues w k w'
    → (k ≤ 4 * length w.threads) × (w'.shared.running ≡ false)
Continues-bound num_cpus n w k w' r down c =
    let (le, still, _) = Continues-Winds c down (Reaches-Sound num_cpus n w r).0 in
    (omega (arith, le, work-le w.threads), still)

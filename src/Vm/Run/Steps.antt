-- ===== src/Vm/Run/Steps.antt =====
-- What holds in every state that `run` can reach.
use mo_vm.Common.{ℕ, zero, suc, ◌≡◌, refl, ◌∙◌, false, List, [], ◌∷◌, ◌++◌, arith}
use mo_vm.Vm.Run.{
  Thread, Shared, Monitor, done, World, Event, ThreadStep, sees_stop, sees_running, sees_error,
  sees_no_error, told_to_stop, told_to_snapshot, enters_guest, leaves_guest, fails, panics,
  raises_flag, MonitorStep, receives, receives_none, flag_raised, flag_down, clears_running,
  was_stopped, sleeps, Step, by_thread, by_monitor, Reaches, begins, then_step, fresh_threads,
  spawned, stop,
}

-- No message waits for any thread.
abbrev pub AllSilent : List Thread → Type 0
AllSilent [] = Unit {0}
AllSilent (t ∷ ts) = (t.messages ≡ []) × AllSilent ts

pub AllSilent-replace :
    (pre : List Thread) (t t' : Thread) (post : List Thread)
    → (t.messages ≡ [] → t'.messages ≡ [])
    → AllSilent (pre ++ t ∷ post)
    → AllSilent (pre ++ t' ∷ post)
AllSilent-replace [] t t' post h (m, ms) = (h m, ms)
AllSilent-replace (u ∷ pre) t t' post h (m, ms) = (m, AllSilent-replace pre t t' post h ms)

pub ThreadStep-silent :
    {e : Event} {f f' : Shared} {t t' : Thread}
    → ThreadStep e f t f' t'
    → (f'.running ≡ f.running) × (t.messages ≡ [] → t'.messages ≡ [])
ThreadStep-silent (sees_stop f ms h) = (refl, λ m. m)
ThreadStep-silent (sees_running f ms h) = (refl, λ m. m)
ThreadStep-silent (sees_error f ms h) = (refl, λ m. m)
ThreadStep-silent (sees_no_error f ms h) = (refl, λ m. m)
ThreadStep-silent (told_to_stop f ms) = (refl, λ m. ground arith)
ThreadStep-silent (told_to_snapshot f ms) = (refl, λ m. ground arith)
ThreadStep-silent (enters_guest f) = (refl, λ m. m)
ThreadStep-silent (leaves_guest f ms) = (refl, λ m. m)
ThreadStep-silent (fails f ms) = (refl, λ m. m)
ThreadStep-silent (panics f ms) = (refl, λ m. m)
ThreadStep-silent (raises_flag f ms) = (refl, λ m. m)

-- No message waits, and the main thread leaves its loop only with the flag cleared.
abbrev Sound : World → Type 0
Sound w = AllSilent w.threads × (w.monitor ≡ done → w.shared.running ≡ false)

MonitorStep-Sound :
    {f f' : Shared} {m m' : Monitor}
    → MonitorStep f m f' m'
    → (m ≡ done → f.running ≡ false)
    → m' ≡ done
    → f'.running ≡ false
MonitorStep-Sound (receives f n h) p = λ q. ground arith
MonitorStep-Sound (receives_none f h) p = λ q. ground arith
MonitorStep-Sound (flag_raised f h) p = λ q. ground arith
MonitorStep-Sound (flag_down f h) p = λ q. ground arith
MonitorStep-Sound (clears_running f) p = λ q. refl
MonitorStep-Sound (was_stopped f h) p = λ q. h
MonitorStep-Sound (sleeps f h) p = λ q. ground arith

Step-Sound : {e : Event} {w w' : World} → Step e w w' → Sound w → Sound w'
Step-Sound (by_thread e f f' pre t t' post m s) (silent, p) =
    let (same, quiet_t) = ThreadStep-silent s in
    (AllSilent-replace pre t t' post quiet_t silent, λ q. same ∙ p q)
Step-Sound (by_monitor f f' ts m m' s) (silent, p) = (silent, MonitorStep-Sound s p)

pub AllSilent-fresh_threads : (n : ℕ) → AllSilent (fresh_threads n)
AllSilent-fresh_threads zero = tt
AllSilent-fresh_threads (suc n) = (refl, AllSilent-fresh_threads n)

pub Reaches-Sound : (num_cpus n : ℕ) (w : World) → Reaches (spawned num_cpus) n w → Sound w
unfolding spawned
Reaches-Sound num_cpus n w begins = (AllSilent-fresh_threads num_cpus, λ q. ground arith)
Reaches-Sound num_cpus n w (then_step e k u w' r s) = Step-Sound s (Reaches-Sound num_cpus k u r)

-- In every state that a run reaches no message waits for a vCPU thread, and once the main thread has
-- left its loop the `stop` that follows changes nothing, so it sends none either.
pub Reaches-stop :
    (num_cpus n : ℕ) (w : World)
    → Reaches (spawned num_cpus) n w
    → AllSilent w.threads × (w.monitor ≡ done → stop w ≡ w)
unfolding stop
Reaches-stop num_cpus n w r =
    let (silent, p) = Reaches-Sound num_cpus n w r in (silent, λ q. ground (arith, p q))

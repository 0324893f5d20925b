-- ===== src/Vm/Run/Tests.antt =====
-- A run of one vCPU that enters the guest and fails there.
use mo_vm.Common.{◌*◌, ◌≤◌, ◌≡◌, refl, true, false, [], ◌∷◌, length}
use mo_vm.Vm.Run.{
  Phase, at_running, at_error, at_message, in_guest, failing, ended, Thread, Shared, Monitor,
  at_channel, stopping, done, World, quiet, failure, sees_running, sees_no_error, enters_guest,
  fails, raises_flag, receives, clears_running, by_thread, by_monitor, Reaches, begins, then_step,
  spawned, stop,
}
use mo_vm.Vm.Run.Steps.{AllSilent, Reaches-stop}
use mo_vm.Vm.Run.Undisturbed.{IsUndisturbed, Reaches-IsUndisturbed}
use mo_vm.Vm.Run.Stopping.{stays, thread_moves, Continues-bound}

abbrev at : Phase → Thread
at phase = record { phase = phase; messages = [] }

abbrev up : Shared
up = record { running = true; error_occurred = false; reported = 0 }

abbrev reported : Shared
reported = record { running = true; error_occurred = false; reported = 1 }

abbrev down : Shared
down = record { running = false; error_occurred = false; reported = 0 }

abbrev world : Shared → Phase → Monitor → World
world f phase m = record { shared = f; threads = at phase ∷ []; monitor = m }

entered : Reaches (spawned 1) 0 (world up in_guest at_channel)
unfolding spawned
entered =
    then_step quiet 0 (world up at_message at_channel) _
      (then_step quiet 0 (world up at_error at_channel) _
        (then_step quiet 0 (spawned 1) _ begins (
          by_thread quiet up up [] (at at_running) (at at_error) [] at_channel
            (sees_running up [] refl)))
        (by_thread quiet up up [] (at at_error) (at at_message) [] at_channel
          (sees_no_error up [] refl)))
      (by_thread quiet up up [] (at at_message) (at in_guest) [] at_channel (enters_guest up))

left : Reaches (spawned 1) 1 (world down failing done)
left =
    then_step quiet 1 (world up failing stopping) _
      (then_step quiet 1 (world reported failing at_channel) _
        (then_step failure 0 (world up in_guest at_channel) _ entered
          (by_thread failure up reported [] (at in_guest) (at failing) [] at_channel (fails up [])))
        (by_monitor reported up (at failing ∷ []) at_channel stopping (receives reported 0 refl)))
      (by_monitor up down (at failing ∷ []) stopping done (clears_running up))

abbrev raised : Shared
raised = record { running = false; error_occurred = true; reported = 0 }

Reaches-IsUndisturbed_example : IsUndisturbed (world up in_guest at_channel)
Reaches-IsUndisturbed_example = Reaches-IsUndisturbed 1 (world up in_guest at_channel) entered

Reaches-stop_example :
    AllSilent (at failing ∷ [])
    × (done ≡ done → stop (world down failing done) ≡ world down failing done)
Reaches-stop_example = Reaches-stop 1 1 (world down failing done) left

Continues-bound_example : (1 ≤ 4 * length (at failing ∷ [])) × (raised.running ≡ false)
Continues-bound_example =
    Continues-bound 1 1 (world down failing done) 1 (world raised ended done) left refl (
      thread_moves 0 quiet down raised [] (at failing) (at ended) [] done stays
        (raises_flag down []))

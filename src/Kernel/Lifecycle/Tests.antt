-- ===== src/Kernel/Lifecycle/Tests.antt =====
-- The theorems on exit, wait, yield and the time slice at one concrete kernel.
use huster_experiment_pke.Base.{ℕ, ◌<◌, ◌≤◌, [], ◌∷◌, none, some, ◌≡◌, ◌⊎◌, refl, arith}
use huster_experiment_pke.Base.Int.{pos, minus_one}
use huster_experiment_pke.Base.Run.{ok}
use huster_experiment_pke.Kernel.Process.{nproc, Status, Kernel, set_status, free_process}
use huster_experiment_pke.Kernel.Sched.{schedule}
use huster_experiment_pke.Kernel.Sched.Queue.{Queue}
use huster_experiment_pke.Kernel.Sched.Laws.{IsReady, Agrees}
use huster_experiment_pke.Kernel.Semaphore.Synced.{Synced}
use huster_experiment_pke.Kernel.Lifecycle.{
  reply, left, sys_user_exit, rrsched, time_slice_len, set_tick, sys_user_wait,
}
use huster_experiment_pke.Kernel.Lifecycle.Laws.{rrsched_slice}
use huster_experiment_pke.Kernel.Lifecycle.Exit.{sys_user_exit-wakes, sys_user_exit_strands}
use huster_experiment_pke.Kernel.Lifecycle.Wait.{IsEnded, sys_user_wait-any}
use huster_experiment_pke.Kernel.Example.{
  scene, queue, waiting, scene-Synced, hart_0, hart_1, hart_2,
}

rrsched_slice_example :
    (2 < time_slice_len → rrsched 0 scene ≡ ok none (set_tick scene 2 2))
    × (time_slice_len ≤ 2
        → (k' : Kernel) × (rrsched 0 scene ≡ ok (some (schedule 0 k').0) (schedule 0 k').1)
          × Synced k' (0 ∷ 1 ∷ 2 ∷ []) waiting
          × Agrees (2 ∷ queue) scene k'
          × ((k'.procs 2).tick_count ≡ 0)
          × ((k'.procs 2).parent ≡ (scene.procs 2).parent)
          × ((k'.procs 2).a0 ≡ (scene.procs 2).a0))
rrsched_slice_example = rrsched_slice scene 0 2 queue waiting scene-Synced hart_0

sys_user_exit-wakes_example :
    (k' : Kernel) × (sys_user_exit 1 scene ≡ ok (left (schedule 1 k').0) (schedule 1 k').1)
    × Synced k' (0 ∷ 1 ∷ 5 ∷ []) waiting
    × ((k'.procs 6).status ≡ Status.zombie)
    × ((k'.procs 5).status ≡ Status.ready)
sys_user_exit-wakes_example =
    sys_user_exit-wakes scene 1 6 queue waiting scene-Synced hart_1 5 refl (omega arith) refl
      (λ i. ground arith)

sys_user_exit_strands_example :
    (k' : Kernel) × (sys_user_exit 2 scene ≡ ok (left (schedule 2 k').0) (schedule 2 k').1)
    × IsReady k' (0 ∷ 1 ∷ 3 ∷ [])
    × Queue k'.procs (k'.sem_table 0).wait_queue (3 ∷ [])
sys_user_exit_strands_example =
    sys_user_exit_strands scene 2 8 3 0 (4 ∷ []) queue waiting scene-Synced hart_2 refl refl

sys_user_wait-any_example :
    ((c : ℕ) × (c < nproc)
      × IsEnded scene 2 c
      × (sys_user_wait minus_one 0 scene ≡ ok (reply (pos c)) scene))
    ⊎ (((c : ℕ) → c < nproc → ¬ IsEnded scene 2 c)
        × Synced (set_status scene 2 Status.blocked) queue waiting
        × (sys_user_wait minus_one 0 scene
            ≡ ok
                (left (schedule 0 (set_status scene 2 Status.blocked)).0)
                (schedule 0 (set_status scene 2 Status.blocked)).1))
sys_user_wait-any_example = sys_user_wait-any scene 0 2 queue waiting scene-Synced hart_0

reports_7 : sys_user_wait minus_one 0 scene ≡ ok (reply (pos 7)) (free_process scene 7)
unfolding sys_user_wait
reports_7 = refl

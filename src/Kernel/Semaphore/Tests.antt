-- ===== src/Kernel/Semaphore/Tests.antt =====
-- The theorems on semaphores at a kernel where two processes wait on semaphore 0.
use huster_experiment_pke.Base.{ℕ, [], ◌∷◌, ◌≡◌, refl, arith}
use huster_experiment_pke.Base.Run.{ok}
use huster_experiment_pke.Kernel.Process.{Status, Kernel, update}
use huster_experiment_pke.Kernel.Sched.{schedule}
use huster_experiment_pke.Kernel.Semaphore.{do_sem_p, do_sem_v, back, gone}
use huster_experiment_pke.Kernel.Semaphore.Synced.{Synced}
use huster_experiment_pke.Kernel.Semaphore.Block.{do_sem_p-blocks}
use huster_experiment_pke.Kernel.Semaphore.Wake.{do_sem_v-wakes}
use huster_experiment_pke.Kernel.Example.{scene, queue, waiting, scene-Synced}

do_sem_p-blocks_example :
    (k' : Kernel) × (do_sem_p 0 0 scene ≡ ok (gone (schedule 0 k').0) (schedule 0 k').1)
    × Synced k' queue (update waiting 0 (3 ∷ 4 ∷ 2 ∷ []))
    × ((k'.procs 2).status ≡ Status.blocked)
    × ((i : ℕ) → (k'.sem_table i).value ≡ (scene.sem_table i).value)
do_sem_p-blocks_example =
    do_sem_p-blocks 0 0 2 scene queue waiting scene-Synced refl (ground arith) refl (omega arith)
      refl

do_sem_v-wakes_example :
    (k' : Kernel) × (do_sem_v 0 0 scene ≡ ok back k')
    × Synced k' (0 ∷ 1 ∷ 3 ∷ []) (update waiting 0 (4 ∷ []))
    × ((k'.procs 3).status ≡ Status.ready)
    × ((i : ℕ) → (k'.sem_table i).value ≡ (scene.sem_table i).value)
do_sem_v-wakes_example = do_sem_v-wakes 0 0 3 (4 ∷ []) scene queue waiting scene-Synced refl refl

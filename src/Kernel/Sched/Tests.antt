-- ===== src/Kernel/Sched/Tests.antt =====
-- The theorems on the ready queue at a kernel with two processes in it.
use huster_experiment_pke.Base.{ℕ, [], ◌∷◌, ◌++◌, none, some, ◌≡◌, ◌≢◌, refl, arith}
use huster_experiment_pke.Base.Run.{ok}
use huster_experiment_pke.Kernel.Process.{Status, Kernel, init_proc_pool}
use huster_experiment_pke.Kernel.Sched.{insert_to_ready_queue, schedule, user}
use huster_experiment_pke.Kernel.Sched.Laws.{
  IsReady, Agrees, insert_to_ready_queue-appends, schedule-head,
}
use huster_experiment_pke.Kernel.Example.{scene, queue, scene-IsReady}

insert_to_ready_queue-appends_example :
    (k' : Kernel) × (insert_to_ready_queue 2 scene ≡ ok tt k')
    × IsReady k' (queue ++ (2 ∷ []))
    × Agrees (2 ∷ queue) scene k'
insert_to_ready_queue-appends_example =
    insert_to_ready_queue-appends scene 2 queue scene-IsReady (omega arith) refl refl

schedule-head_example :
    (k' : Kernel) × (schedule 3 scene ≡ (user 0, k'))
    × IsReady k' (1 ∷ [])
    × (k'.current 3 ≡ some 0)
    × (k'.procs 0 ≡ record (scene.procs 0) { queue_next = none; status = Status.running })
    × ((a : ℕ) → a ≢ 0 → k'.procs a ≡ scene.procs a)
    × (k'.sem_table ≡ scene.sem_table)
    × ((h : ℕ) → h ≢ 3 → k'.current h ≡ scene.current h)
schedule-head_example = schedule-head 3 scene 0 (1 ∷ []) scene-IsReady

abbrev started : Kernel
started = init_proc_pool (λ _. none)

started-IsReady : IsReady started []
unfolding init_proc_pool
started-IsReady = record { linked = refl; distinct = tt; slots = tt; status = tt }

-- ===== src/Kernel/Semaphore/Scheduling.antt =====
-- The scheduler's own operations keep the invariant of the queues.
use huster_experiment_pke.Base.{
  ℕ, ap, ◌<◌, List, [], ◌∷◌, ◌++◌, some, false, ◌≡◌, refl, ◌≢◌, arith, ◌∉◌,
}
use huster_experiment_pke.Base.Run.{ok}
use huster_experiment_pke.Kernel.Process.{nproc, Status, is_gone, Process, Kernel, set_proc}
use huster_experiment_pke.Kernel.Sched.{insert_to_ready_queue, schedule, user}
use huster_experiment_pke.Kernel.Sched.Laws.{Agrees, insert_to_ready_queue-appends, schedule-head}
use huster_experiment_pke.Kernel.Semaphore.Synced.{Synced, Waits-frame, IsReady-frame}
use huster_experiment_pke.Kernel.Semaphore.Block.{ready-not-waiting}

pub insert-Synced :
    (k : Kernel) (p : ℕ) (rs : List ℕ) (ws : ℕ → List ℕ)
    → Synced k rs ws
    → p < nproc
    → p ∉ rs
    → ((i : ℕ) → p ∉ ws i)
    → is_gone (k.procs p).status ≡ false
    → (k' : Kernel) × (insert_to_ready_queue p k ≡ ok tt k')
      × Synced k' (rs ++ (p ∷ [])) ws
      × Agrees (p ∷ rs) k k'
insert-Synced k p rs ws s lt out away live =
    let (k', run, ready, same) = insert_to_ready_queue-appends k p rs s.ready lt out live in
    (
      k',
      run,
      record {
        ready = ready;
        waits = λ i. rw same.sems (
            Waits-frame k.procs k'.procs (k.sem_table i) (ws i)
              (λ a m. same.procs a (ground (arith, ready-not-waiting k rs ws a i s m, away i)))
              (s.waits i));
        apart = s.apart;
      },
      same,
    )

-- a change to the status of a process that is in no queue
pub set_proc-Synced :
    (k : Kernel) (p : ℕ) (v : Process) (rs : List ℕ) (ws : ℕ → List ℕ)
    → Synced k rs ws
    → p ∉ rs
    → ((i : ℕ) → p ∉ ws i)
    → Synced (set_proc k p v) rs ws
set_proc-Synced k p v rs ws s out away = record {
  ready = IsReady-frame k (set_proc k p v) rs refl (λ a m. ground arith) s.ready;
  waits = λ i.
      Waits-frame k.procs (set_proc k p v).procs (k.sem_table i) (ws i)
        (λ a m. ground (arith, away i)) (s.waits i);
  apart = s.apart;
}

-- schedule() with a process in the queue
pub schedule-Synced :
    (tp : ℕ) (k : Kernel) (p : ℕ) (rs : List ℕ) (ws : ℕ → List ℕ)
    → Synced k (p ∷ rs) ws
    → (k' : Kernel) × (schedule tp k ≡ (user p, k'))
      × Synced k' rs ws
      × (k'.current tp ≡ some p)
      × ((k'.procs p).status ≡ Status.running)
      × ((a : ℕ) → a ≢ p → k'.procs a ≡ k.procs a)
      × ((h : ℕ) → h ≢ tp → k'.current h ≡ k.current h)
schedule-Synced tp k p rs ws s =
    let (k', run, ready, cur, fields, same, sems, harts) = schedule-head tp k p rs s.ready in
    (
      k',
      run,
      record {
        ready = ready;
        waits = λ i. rw sems (
            Waits-frame k.procs k'.procs (k.sem_table i) (ws i)
              (λ a m. same a (ground (arith, ready-not-waiting k (p ∷ rs) ws a i s m)))
              (s.waits i));
        apart = s.apart;
      },
      cur,
      ap (λ (v : Process). v.status) fields,
      same,
      harts,
    )

-- ===== src/Kernel/Lifecycle/Laws.antt =====
-- yield, the time slice and exit as operations on the queues.
use mathlib.Core.Path.{subst}
use huster_experiment_pke.Base.{
  ℕ, ap, ◌∙◌, ==_refl, ◌+◌, ◌≤◌, ◌<◌, List, [], ◌∷◌, ◌++◌, Option, none, some, true, false, ◌≡◌,
  refl, arith, leb,
}
use huster_experiment_pke.Base.Run.{Run, ok, and_then}
use huster_experiment_pke.Kernel.Process.{
  nproc, Status, Process, Kernel, set_proc, set_proc-set_proc,
}
use huster_experiment_pke.Kernel.Sched.{Where, insert_to_ready_queue, schedule, then_schedule}
use huster_experiment_pke.Kernel.Sched.Laws.{Agrees}
use huster_experiment_pke.Kernel.Sched.Fields.{SameFields, insert-SameFields}
use huster_experiment_pke.Kernel.Semaphore.Synced.{Synced}
use huster_experiment_pke.Kernel.Semaphore.Block.{running_nowhere}
use huster_experiment_pke.Kernel.Semaphore.Scheduling.{insert-Synced, set_proc-Synced}
use huster_experiment_pke.Kernel.Lifecycle.{
  left, sys_user_yield, yield_of, rrsched, rrsched_of, time_slice_len, set_tick,
}

-- the hart `tp` runs the process `p`
pub record Runs (k : Kernel) (tp p : ℕ) : Type 0 where
  pub current : k.current tp ≡ some p
  pub slot : p < nproc
  pub status : (k.procs p).status ≡ Status.running

-- a running process that is made READY (with other fields changed as well) and inserted
requeue :
    (k : Kernel) (p : ℕ) (v : Process) (rs : List ℕ) (ws : ℕ → List ℕ)
    → Synced k rs ws
    → p < nproc
    → (k.procs p).status ≡ Status.running
    → v.status ≡ Status.ready
    → (k' : Kernel) × (insert_to_ready_queue p (set_proc k p v) ≡ ok tt k')
      × Synced k' (rs ++ (p ∷ [])) ws
      × Agrees (p ∷ rs) k k'
      × SameFields v (k'.procs p)
requeue k p v rs ws s lt run e =
    let (out, away) = running_nowhere k p rs ws s run in
    let (k', ins, synced, same) =
      insert-Synced (set_proc k p v) p rs ws (set_proc-Synced k p v rs ws s out away) lt out away
        (ground arith) in
    (
      k',
      ins,
      synced,
      record {
        procs = λ a o. ground (arith, same.procs a o);
        sems = same.sems;
        harts = same.harts;
      },
      let here : (set_proc k p v).procs p ≡ v = ground arith in
          subst (λ (w : Process). SameFields w (k'.procs p)) here
            (insert-SameFields (set_proc k p v) k' p p ins),
    )

-- sys_user_yield puts the running process at the end of the ready queue and enters schedule() there.
pub sys_user_yield-requeues :
    (k : Kernel) (tp p : ℕ) (rs : List ℕ) (ws : ℕ → List ℕ)
    → Synced k rs ws
    → Runs k tp p
    → (k' : Kernel) × (sys_user_yield tp k ≡ ok (left (schedule tp k').0) (schedule tp k').1)
      × Synced k' (rs ++ (p ∷ [])) ws
      × Agrees (p ∷ rs) k k'
unfolding sys_user_yield
sys_user_yield-requeues k tp p rs ws s r =
    let (k', ins, synced, same, _) =
      requeue k p (record (k.procs p) { status = Status.ready }) rs ws s r.slot r.status refl in
    (k', rw (r.current, yield_of, ins), synced, same)

-- A timer tick that leaves the count below TIME_SLICE_LEN is only counted; the tick that makes it reach
-- TIME_SLICE_LEN resets the count to 0, keeps the process's parent and return value, puts it at the end
-- of the ready queue and enters schedule() there.
pub rrsched_slice :
    (k : Kernel) (tp p : ℕ) (rs : List ℕ) (ws : ℕ → List ℕ)
    → Synced k rs ws
    → Runs k tp p
    → let t = (k.procs p).tick_count + 1 in
      (t < time_slice_len → rrsched tp k ≡ ok none (set_tick k p t))
      × (time_slice_len ≤ t
          → (k' : Kernel) × (rrsched tp k ≡ ok (some (schedule tp k').0) (schedule tp k').1)
            × Synced k' (rs ++ (p ∷ [])) ws
            × Agrees (p ∷ rs) k k'
            × ((k'.procs p).tick_count ≡ 0)
            × ((k'.procs p).parent ≡ (k.procs p).parent)
            × ((k'.procs p).a0 ≡ (k.procs p).a0))
unfolding rrsched
rrsched_slice k tp p rs ws s r =
    let t = (k.procs p).tick_count + 1 in
    let v : Process = record (k.procs p) { tick_count = 0; status = Status.ready } in
    (
      λ early.
          let test : leb time_slice_len t ≡ false = ground arith in
          rw (r.current, rrsched_of, test),
      λ late.
          let test : leb time_slice_len t ≡ true = ground arith in
          let (k', ins, synced, same, fields) = requeue k p v rs ws s r.slot r.status refl in
          let tick : Process = record (k.procs p) { tick_count = 0 } in
          let go : Kernel → Run Kernel (Option Where) = λ q.
            and_then (then_schedule tp (insert_to_ready_queue p q)) (λ w k''. ok (some w) k'') in
          (
            k',
            rw (r.current, rrsched_of, test, ==_refl p)
                (ap go (set_proc-set_proc k p tick v) ∙ rw ins),
            synced,
            same,
            fields.tick_count,
            fields.parent,
            fields.a0,
          ),
    )

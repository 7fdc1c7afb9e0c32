-- ===== src/Kernel/Lifecycle/Exit.antt =====
-- The end of a process: sys_user_exit and kill_current_process.
use huster_experiment_pke.Base.{
  ℕ, ◌<◌, List, [], ◌∷◌, ◌++◌, Option, none, some, false, ◌≡◌, refl, ap, ◌∙◌, ◌≢◌, ◌⊎◌, inl, inr,
  arith, ◌∉◌,
}
use huster_experiment_pke.Base.Run.{ok}
use huster_experiment_pke.Kernel.Process.{
  nproc, Status, is_blocked, Process, Semaphore, Kernel, set_proc, set_status, free_process,
}
use huster_experiment_pke.Kernel.Sched.{insert_to_ready_queue, schedule, wake_parent, exit_current}
use huster_experiment_pke.Kernel.Sched.Queue.{Queue}
use huster_experiment_pke.Kernel.Sched.Laws.{IsReady, Agrees, insert_to_ready_queue-appends}
use huster_experiment_pke.Kernel.Semaphore.Synced.{
  Synced, Waits, mem-snoc_self, IsReady-frame, not-mem_of_status, All-status,
}
use huster_experiment_pke.Kernel.Semaphore.Block.{running_nowhere}
use huster_experiment_pke.Kernel.Semaphore.Scheduling.{insert-Synced, set_proc-Synced}
use huster_experiment_pke.Kernel.Lifecycle.{left, sys_user_exit}
use huster_experiment_pke.Kernel.Lifecycle.Laws.{Runs}

exit-run :
    (k k' : Kernel) (tp p : ℕ)
    → k.current tp ≡ some p
    → wake_parent (k.procs p).parent (free_process k p) ≡ ok tt k'
    → sys_user_exit tp k ≡ ok (left (schedule tp k').0) (schedule tp k').1
unfolding sys_user_exit exit_current
exit-run k k' tp p e w = rw (e, exit_current, w)

exit-run_parent :
    (k k' : Kernel) (tp p q : ℕ)
    → k.current tp ≡ some p
    → (k.procs p).parent ≡ some q
    → wake_parent (some q) (free_process k p) ≡ ok tt k'
    → sys_user_exit tp k ≡ ok (left (schedule tp k').0) (schedule tp k').1
exit-run_parent k k' tp p q e par w =
    exit-run k k' tp p e (ap (λ (o : Option ℕ). wake_parent o (free_process k p)) par ∙ w)

freed_other : (k : Kernel) (p a : ℕ) → a ≢ p → (free_process k p).procs a ≡ k.procs a
unfolding free_process
freed_other k p a ne = ground arith

freed_self : (k : Kernel) (p : ℕ) → ((free_process k p).procs p).status ≡ Status.zombie
unfolding free_process
freed_self k p = ground arith

wake_parent_blocked :
    (k k' : Kernel) (q : ℕ)
    → (k.procs q).status ≡ Status.blocked
    → insert_to_ready_queue q (set_status k q Status.ready) ≡ ok tt k'
    → wake_parent (some q) k ≡ ok tt k'
unfolding wake_parent
wake_parent_blocked k k' q b ins = rw b ins

ne_of_status :
    (k : Kernel) (q p : ℕ)
    → (k.procs q).status ≡ Status.blocked
    → (k.procs p).status ≡ Status.running
    → q ≢ p
ne_of_status k q p b r e = ground arith

freed_sems : (k : Kernel) (p : ℕ) → (free_process k p).sem_table ≡ k.sem_table
unfolding free_process
freed_sems k p = refl

Queue-last :
    (f : ℕ → Process) (h : Option ℕ) (xs : List ℕ) (y : ℕ)
    → Queue f h (xs ++ (y ∷ []))
    → (f y).queue_next ≡ none
Queue-last f h [] y q = q.1
Queue-last f h (x ∷ xs) y q = Queue-last f (f x).queue_next xs y q.1

still_zombie :
    (k : Kernel) (p q : ℕ) (rs : List ℕ) (ws : ℕ → List ℕ) (k' : Kernel) (v : Process)
    → Synced k rs ws
    → (k.procs p).status ≡ Status.running
    → (k.procs q).status ≡ Status.blocked
    → Agrees (q ∷ rs) (set_proc (free_process k p) q v) k'
    → (k'.procs p).status ≡ Status.zombie
still_zombie k p q rs ws k' v s r b agrees =
    ground
      (arith, ne_of_status k q p b r, agrees.procs p, running_nowhere k p rs ws s r, freed_self k p)

module _ (k : Kernel) (tp p : ℕ) (rs : List ℕ) (ws : ℕ → List ℕ) (s : Synced k rs ws)
    (r : Runs k tp p) where
  freed-Synced : Synced (free_process k p) rs ws
  unfolding free_process
  freed-Synced =
      let (out, away) = running_nowhere k p rs ws s r.status in
      set_proc-Synced k p (record (k.procs p) { status = Status.zombie }) rs ws s out away

  -- sys_user_exit makes the process a ZOMBIE and enters schedule(). If its parent is not BLOCKED, the
  -- queues stay as they are.
  pub sys_user_exit_quiet :
      ((k.procs p).parent ≡ none)
        ⊎ ((q : ℕ) × ((k.procs p).parent ≡ some q) × (is_blocked (k.procs q).status ≡ false))
      → (k' : Kernel) × (sys_user_exit tp k ≡ ok (left (schedule tp k').0) (schedule tp k').1)
        × Synced k' rs ws
        × ((k'.procs p).status ≡ Status.zombie)
  unfolding free_process wake_parent
  sys_user_exit_quiet (inl orphan) = (
    free_process k p,
    exit-run k (free_process k p) tp p r.current (rw orphan),
    freed-Synced,
    ground arith,
  )
  sys_user_exit_quiet (inr (q, e, live)) = (
    free_process k p,
    exit-run k (free_process k p) tp p r.current (rw e (ground arith)),
    freed-Synced,
    ground arith,
  )

  -- A parent that is BLOCKED in wait, that is on no semaphore, is made READY at the end of the queue.
  pub sys_user_exit-wakes :
      (q : ℕ)
      → (k.procs p).parent ≡ some q
      → q < nproc
      → (k.procs q).status ≡ Status.blocked
      → ((i : ℕ) → q ∉ ws i)
      → (k' : Kernel) × (sys_user_exit tp k ≡ ok (left (schedule tp k').0) (schedule tp k').1)
        × Synced k' (rs ++ (q ∷ [])) ws
        × ((k'.procs p).status ≡ Status.zombie)
        × ((k'.procs q).status ≡ Status.ready)
  sys_user_exit-wakes q e lt b away =
      let k₀ = free_process k p in
      let v : Process = record (k₀.procs q) { status = Status.ready } in
      let same : k₀.procs q ≡ k.procs q = freed_other k p q (ne_of_status k q p b r.status) in
      let b₀ : (k₀.procs q).status ≡ Status.blocked = rw same b in
      let out : q ∉ rs = not-mem_of_status k.procs Status.ready q rs s.ready.status (λ e'. cc) in
      let (k', ins, synced, agrees) =
        insert-Synced (set_proc k₀ q v) q rs ws (set_proc-Synced k₀ q v rs ws freed-Synced out away)
          lt out away (ground arith) in
      (
        k',
        exit-run_parent k k' tp p q r.current e (wake_parent_blocked k₀ k' q b₀ ins),
        synced,
        still_zombie k p q rs ws k' v s r.status b agrees,
        All-status k'.procs Status.ready q (rs ++ (q ∷ [])) synced.ready.status
            (mem-snoc_self q rs),
      )

-- A parent that waits first on the semaphore `i` is made READY all the same, and its link is cleared:
-- it stands in the ready queue and still heads the wait queue of `i`, and the processes that waited
-- behind it can no longer be reached from the semaphore.
pub sys_user_exit_strands :
    (k : Kernel) (tp p q i : ℕ) (xs rs : List ℕ) (ws : ℕ → List ℕ)
    → Synced k rs ws
    → Runs k tp p
    → (k.procs p).parent ≡ some q
    → ws i ≡ q ∷ xs
    → (k' : Kernel) × (sys_user_exit tp k ≡ ok (left (schedule tp k').0) (schedule tp k').1)
      × IsReady k' (rs ++ (q ∷ []))
      × Queue k'.procs (k'.sem_table i).wait_queue (q ∷ [])
sys_user_exit_strands k tp p q i xs rs ws s r e w =
    let k₀ = free_process k p in
    let on : Waits k.procs (k.sem_table i) (q ∷ xs) = rw w at (s.waits i) in
    let b = on.status.0 in
    let v : Process = record (k₀.procs q) { status = Status.ready } in
    let b₀ : (k₀.procs q).status ≡ Status.blocked =
      rw (freed_other k p q (ne_of_status k q p b r.status)) b in
    let out : q ∉ rs = not-mem_of_status k.procs Status.ready q rs s.ready.status (λ e'. cc) in
    let ready =
      IsReady-frame k₀ (set_proc k₀ q v) rs refl (λ a m. ground arith)
        (freed-Synced k tp p rs ws s r).ready in
    let (k', ins, is, agrees) =
      insert_to_ready_queue-appends (set_proc k₀ q v) q rs ready on.slots.0 out (ground arith) in
    (
      k',
      exit-run_parent k k' tp p q r.current e (wake_parent_blocked k₀ k' q b₀ ins),
      is,
      (
        ap (λ (f : ℕ → Semaphore). (f i).wait_queue) (agrees.sems ∙ freed_sems k p) ∙ on.linked.0,
        Queue-last k'.procs k'.ready_queue_head rs q is.linked,
      ),
    )

-- ===== src/Kernel/Semaphore/Wake.antt =====
-- do_semV: giving a unit back, or waking the process that has waited longest.
use huster_experiment_pke.Base.{
  ℕ, elem, Bool-cases, ==_refl, List, [], ◌∷◌, ◌++◌, none, some, false, ◌≡◌, refl, ap, ◌∙◌, inl,
  inr, arith, ◌∈◌, ◌∉◌,
}
use huster_experiment_pke.Base.Int.{ℤ, pos, ◌+ℤ◌, ◌-ℤ◌}
use huster_experiment_pke.Base.Run.{Run, ok, and_then}
use huster_experiment_pke.Kernel.Process.{
  Status, Semaphore, Kernel, update, update-update, set_next, set_sem,
}
use huster_experiment_pke.Kernel.Sched.{insert_to_ready_queue}
use huster_experiment_pke.Kernel.Sched.Laws.{IsReady, insert_to_ready_queue-appends}
use huster_experiment_pke.Kernel.Semaphore.{Control, do_sem_v, wake_first, invalid_sid, back}
use huster_experiment_pke.Kernel.Semaphore.Synced.{
  mem-snoc_self, Waits, Synced, Synced-at, Synced-same, Waits-value, Apart-tail, Waits-frame,
  IsReady-frame, All-status,
}
use huster_experiment_pke.Kernel.Semaphore.Block.{ready-not-waiting}

-- With nobody waiting, do_semV adds a unit and returns; queues and processes stay as they are.
pub do_sem_v-counts :
    (tp sid : ℕ) (k : Kernel) (rs : List ℕ) (ws : ℕ → List ℕ)
    → Synced k rs ws
    → invalid_sid sid k ≡ false
    → ws sid ≡ []
    → (k' : Kernel) × (do_sem_v tp sid k ≡ ok back k')
      × Synced k' rs ws
      × ((k'.sem_table sid).value ≡ (k.sem_table sid).value +ℤ pos 1)
      × (k'.procs ≡ k.procs)
unfolding do_sem_v
do_sem_v-counts tp sid k rs ws s valid e =
    let k' =
      set_sem k sid (record (k.sem_table sid) { value = (k.sem_table sid).value +ℤ pos 1 }) in
    let w : Waits k.procs (k.sem_table sid) [] = rw e at (s.waits sid) in
    (
      k',
      rw (valid, w.linked, wake_first),
      Synced-same k k' rs rs ws sid s (IsReady-frame k k' rs refl (λ a m. refl) s.ready)
          (λ i a ne m. refl) (λ i ne. ground arith)
          (Waits-value k.procs (k.sem_table sid) (k'.sem_table sid) (ws sid) (ground arith) (inl e)
            (s.waits sid)),
      ground arith,
      refl,
    )

-- the semaphore without its first waiter `p`, and `p` unlinked
unlinked : Kernel → ℕ → ℕ → Kernel
unlinked k sid p =
    set_next (set_sem k sid (record (k.sem_table sid) { wait_queue = (k.procs p).queue_next })) p
      none

module _ (k : Kernel) (sid p : ℕ) (xs : List ℕ) (rs : List ℕ) (ws : ℕ → List ℕ) (s : Synced k rs ws)
    (e : ws sid ≡ p ∷ xs) where
  first_here : p ∈ ws sid
  first_here = rw e (ground arith)

  head-Waits : Waits k.procs (k.sem_table sid) (p ∷ xs)
  head-Waits = rw e at (s.waits sid)

  rest-Waits : Waits (unlinked k sid p).procs ((unlinked k sid p).sem_table sid) xs
  unfolding unlinked
  rest-Waits =
      let w = head-Waits in
      let s' : Semaphore = record (k.sem_table sid) { wait_queue = (k.procs p).queue_next } in
      let rest : Waits k.procs s' xs = record {
        linked = w.linked.1;
        distinct = w.distinct.1;
        slots = w.slots.1;
        status = w.status.1;
        idle = ground (arith, w.idle);
      } in
      rw (==_refl sid) (
        Waits-frame k.procs (unlinked k sid p).procs s' xs (λ a m. ground (arith, w.distinct.0))
          rest)

  unlinked-IsReady : IsReady (unlinked k sid p) rs
  unfolding unlinked
  unlinked-IsReady =
      IsReady-frame k (unlinked k sid p) rs refl
        (λ a m. ground (arith, ready-not-waiting k rs ws p sid s first_here)) s.ready

  unlinked-Synced : Synced (unlinked k sid p) rs (update ws sid xs)
  unfolding unlinked
  unlinked-Synced =
      Synced-at k (unlinked k sid p) rs rs ws sid xs s unlinked-IsReady
        (λ i a ne m. ground (arith, s.apart i sid a, first_here)) (λ i ne. ground arith) rest-Waits
        (Apart-tail ws sid p xs e s.apart)

restored : (v : ℤ) → v +ℤ pos 1 -ℤ pos 1 ≡ v
restored v = ground arith

do_sem_v-run :
    (tp sid p : ℕ) (k k' : Kernel)
    → invalid_sid sid k ≡ false
    → (k.sem_table sid).wait_queue ≡ some p
    → insert_to_ready_queue p (unlinked k sid p) ≡ ok tt k'
    → do_sem_v tp sid k ≡ ok back k'
unfolding do_sem_v unlinked
do_sem_v-run tp sid p k k' valid e run =
    let sem = k.sem_table sid in
    let a = record sem { value = sem.value +ℤ pos 1; wait_queue = some p } in
    let b = record sem { wait_queue = (k.procs p).queue_next } in
    let wake : (ℕ → Semaphore) → Run Kernel Control = λ f.
      and_then (insert_to_ready_queue p (set_next (record k { sem_table = f }) p none))
        (λ _ k'. ok back k') in
    rw (valid, e, wake_first, ==_refl sid, restored sem.value)
      (ap wake (update-update k.sem_table sid a b) ∙ rw run)

woken_nowhere :
    (k : Kernel) (rs : List ℕ) (ws : ℕ → List ℕ) (sid p : ℕ) (xs : List ℕ)
    → Synced k rs ws
    → ws sid ≡ p ∷ xs
    → (i : ℕ) → p ∉ update ws sid xs i
woken_nowhere k rs ws sid p xs s e i =
    let w : Waits k.procs (k.sem_table sid) (p ∷ xs) = rw e at (s.waits sid) in
    let here : p ∈ ws sid = rw e (ground arith) in
    elim (Bool-cases (elem p (update ws sid xs i))) [
      | inr out ↦ out
      | inl m ↦ ground (arith, w.distinct.0, s.apart i sid p, here)
    ]

-- With processes waiting, do_semV keeps the value, takes the one that has waited longest off the wait
-- queue and puts it at the end of the ready queue as READY; every other queue stays as it is.
pub do_sem_v-wakes :
    (tp sid p : ℕ) (xs : List ℕ) (k : Kernel) (rs : List ℕ) (ws : ℕ → List ℕ)
    → Synced k rs ws
    → invalid_sid sid k ≡ false
    → ws sid ≡ p ∷ xs
    → (k' : Kernel) × (do_sem_v tp sid k ≡ ok back k')
      × Synced k' (rs ++ (p ∷ [])) (update ws sid xs)
      × ((k'.procs p).status ≡ Status.ready)
      × ((i : ℕ) → (k'.sem_table i).value ≡ (k.sem_table i).value)
unfolding unlinked
do_sem_v-wakes tp sid p xs k rs ws s valid e =
    let u = unlinked k sid p in
    let w = head-Waits k sid p xs rs ws s e in
    let su = unlinked-Synced k sid p xs rs ws s e in
    let out = ready-not-waiting k rs ws p sid s (first_here k sid p xs rs ws s e) in
    let (k', run, ready, same) =
      insert_to_ready_queue-appends u p rs su.ready w.slots.0 out (ground (arith, w.status.0)) in
    (
      k',
      do_sem_v-run tp sid p k k' valid w.linked.0 run,
      record {
        ready = ready;
        waits = λ i. rw same.sems (
            Waits-frame u.procs k'.procs (u.sem_table i) (update ws sid xs i)
              (λ a m. same.procs a (
                ground (
                  arith,
                  ready-not-waiting u rs (update ws sid xs) a i su m,
                  woken_nowhere k rs ws sid p xs s e i,
                )))
              (su.waits i));
        apart = su.apart;
      },
      All-status k'.procs Status.ready p (rs ++ (p ∷ [])) ready.status (mem-snoc_self p rs),
      λ i. rw same.sems (ground arith),
    )

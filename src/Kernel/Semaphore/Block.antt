-- ===== src/Kernel/Semaphore/Block.antt =====
-- do_semP: taking a unit, or waiting at the end of the semaphore's queue.
use huster_experiment_pke.Base.{
  ℕ, zero, suc, ◌<◌, List, [], ◌∷◌, ◌++◌, none, some, true, false, ◌≡◌, refl, ◌⊎◌, inr, arith,
  length, ◌∈◌, ◌∉◌,
}
use huster_experiment_pke.Base.Int.{pos, ◌≤ℤ◌, ◌-ℤ◌, ltb_ℤ}
use huster_experiment_pke.Base.Run.{ok}
use huster_experiment_pke.Base.Pigeonhole.{length-Distinct}
use huster_experiment_pke.Kernel.Process.{
  nproc, Status, Process, Kernel, update, set_status, set_next, set_sem,
}
use huster_experiment_pke.Kernel.Sched.{schedule}
use huster_experiment_pke.Kernel.Sched.Queue.{Queue, Queue-snoc, last, last-mem}
use huster_experiment_pke.Kernel.Sched.Laws.{All-snoc, Distinct-snoc}
use huster_experiment_pke.Kernel.Semaphore.{
  do_sem_p, block_on, block_current, link_waiter, link_last, wait_tail, invalid_sid, back, gone,
}
use huster_experiment_pke.Kernel.Semaphore.Synced.{
  Waits, Synced, Synced-at, Synced-same, Waits-value, Apart-snoc, Waits-frame, IsReady-frame,
  not-mem_of_status, All-status, All-status_frame,
}

wait_tail-last :
    (n : ℕ) (f : ℕ → Process) (p : ℕ) (xs : List ℕ)
    → Queue f (f p).queue_next xs
    → length xs < n
    → wait_tail n f p ≡ some (last p xs)
unfolding wait_tail
wait_tail-last zero f p xs q fuel = absurd (omega arith)
wait_tail-last (suc n) f p [] q fuel = ground arith
wait_tail-last (suc n) f p (x ∷ xs) q fuel = ground (arith, wait_tail-last n f x xs)

-- a process that is RUNNING is in none of the queues
pub running_nowhere :
    (k : Kernel) (p : ℕ) (rs : List ℕ) (ws : ℕ → List ℕ)
    → Synced k rs ws
    → (k.procs p).status ≡ Status.running
    → (p ∉ rs) × ((i : ℕ) → p ∉ ws i)
running_nowhere k p rs ws s r = (
  not-mem_of_status k.procs Status.ready p rs s.ready.status (λ e. cc),
  λ i. not-mem_of_status k.procs Status.blocked p (ws i) (s.waits i).status (λ e. cc),
)

-- the ready queue and the wait queues share no member
pub ready-not-waiting :
    (k : Kernel) (rs : List ℕ) (ws : ℕ → List ℕ) (a i : ℕ) → Synced k rs ws → a ∈ ws i → a ∉ rs
ready-not-waiting k rs ws a i s m =
    let b = All-status k.procs Status.blocked a (ws i) (s.waits i).status m in
    not-mem_of_status k.procs Status.ready a rs s.ready.status (λ e. cc)

-- the state after `p` has been linked behind `t` (`none`: as the only waiter) and marked BLOCKED
first_waiter : Kernel → ℕ → ℕ → Kernel
first_waiter k sid p =
    set_status (set_sem (set_next k p none) sid (record (k.sem_table sid) { wait_queue = some p }))
      p Status.blocked

later_waiter : Kernel → ℕ → ℕ → Kernel
later_waiter k t p = set_status (set_next (set_next k p none) t (some p)) p Status.blocked

block_on-first :
    (k : Kernel) (sid p : ℕ)
    → (k.sem_table sid).wait_queue ≡ none
    → block_on sid p k ≡ ok tt (first_waiter k sid p)
unfolding block_on first_waiter
block_on-first k sid p e = rw (e, link_waiter)

block_on-later :
    (k : Kernel) (sid p h t : ℕ)
    → (k.sem_table sid).wait_queue ≡ some h
    → wait_tail nproc (set_next k p none).procs h ≡ some t
    → block_on sid p k ≡ ok tt (later_waiter k t p)
unfolding block_on link_waiter link_last later_waiter
block_on-later k sid p h t e w = rw (e, link_waiter, w)

-- what blocking `p` on `sid` leaves: `p` is BLOCKED, and only the links changed otherwise
record Blocked (k k' : Kernel) (p : ℕ) : Type 0 where
  status : (k'.procs p).status ≡ Status.blocked
  harts : k'.current ≡ k.current
  values : (i : ℕ) → (k'.sem_table i).value ≡ (k.sem_table i).value

module _ (k : Kernel) (sid p : ℕ) (rs : List ℕ) (ws : ℕ → List ℕ) (s : Synced k rs ws)
    (lt : p < nproc) (run : (k.procs p).status ≡ Status.running)
    (spent : (k.sem_table sid).value ≤ℤ pos 0) where
  out : (p ∉ rs) × ((i : ℕ) → p ∉ ws i)
  out = running_nowhere k p rs ws s run

  first_waiter-Synced :
      ws sid ≡ [] → Synced (first_waiter k sid p) rs (update ws sid (ws sid ++ (p ∷ [])))
  unfolding first_waiter
  first_waiter-Synced e =
      let k' = first_waiter k sid p in
      Synced-at k k' rs rs ws sid (ws sid ++ (p ∷ [])) s
        (IsReady-frame k k' rs refl (λ a m. ground (arith, out.0)) s.ready)
        (λ i a ne m. ground (arith, out.1 i)) (λ i ne. ground arith)
        (rw e (record {
          linked = (ground arith, ground arith);
          distinct = (refl, tt);
          slots = (lt, tt);
          status = (ground arith, tt);
          idle = inr (ground (arith, spent));
        }))
        (Apart-snoc ws sid p out.1 s.apart)

  later_waiter-Synced :
      (x : ℕ) (xs : List ℕ)
      → ws sid ≡ x ∷ xs
      → Synced (later_waiter k (last x xs) p) rs (update ws sid (ws sid ++ (p ∷ [])))
  unfolding later_waiter
  later_waiter-Synced x xs e =
      let k' = later_waiter k (last x xs) p in
      let w : Waits k.procs (k.sem_table sid) (x ∷ xs) = rw e at (s.waits sid) in
      let away : p ∉ x ∷ xs = rw e at (out.1 sid) in
      let tail_here : last x xs ∈ ws sid = rw e (last-mem x xs) in
      Synced-at k k' rs rs ws sid (ws sid ++ (p ∷ [])) s
        (IsReady-frame k k' rs refl
          (λ a m. ground (arith, out.0, ready-not-waiting k rs ws (last x xs) sid s tail_here))
          s.ready)
        (λ i a ne m. ground (arith, out.1 i, s.apart i sid a)) (λ i ne. refl)
        (rw e (record {
          linked =
              Queue-snoc k.procs k'.procs (k.sem_table sid).wait_queue x p xs w.linked w.distinct
                (λ a m ne. ground arith) (ground (arith, last-mem x xs)) (ground arith);
          distinct = Distinct-snoc (x ∷ xs) p w.distinct away;
          slots = All-snoc (λ y. y < nproc) (x ∷ xs) p w.slots lt;
          status =
              All-snoc (λ y. (k'.procs y).status ≡ Status.blocked) (x ∷ xs) p
                (All-status_frame k.procs k'.procs Status.blocked (x ∷ xs) (λ a m. ground arith)
                  w.status)
                (ground arith);
          idle = inr spent;
        }))
        (Apart-snoc ws sid p out.1 s.apart)

  find_last :
      (x : ℕ) (xs : List ℕ)
      → ws sid ≡ x ∷ xs
      → wait_tail nproc (set_next k p none).procs x ≡ some (last x xs)
  find_last x xs e =
      let k' = set_next k p none in
      let w : Waits k.procs (k.sem_table sid) (x ∷ xs) = rw e at (s.waits sid) in
      let away : p ∉ x ∷ xs = rw e at (out.1 sid) in
      let fits = length-Distinct nproc (x ∷ xs) w.distinct w.slots in
      let v = Waits-frame k.procs k'.procs (k.sem_table sid) (x ∷ xs) (λ a m. ground arith) w in
      wait_tail-last nproc k'.procs x xs v.linked.1 (omega arith)

  block_on-Synced :
      (xs : List ℕ)
      → ws sid ≡ xs
      → (k' : Kernel) × (block_on sid p k ≡ ok tt k')
        × Synced k' rs (update ws sid (ws sid ++ (p ∷ [])))
        × Blocked k k' p
  unfolding first_waiter later_waiter
  block_on-Synced [] e =
      let w : Waits k.procs (k.sem_table sid) [] = rw e at (s.waits sid) in
      (
        first_waiter k sid p,
        block_on-first k sid p w.linked,
        first_waiter-Synced e,
        record { status = ground arith; harts = refl; values = λ i. ground arith },
      )
  block_on-Synced (x ∷ xs) e =
      let w : Waits k.procs (k.sem_table sid) (x ∷ xs) = rw e at (s.waits sid) in
      (
        later_waiter k (last x xs) p,
        block_on-later k sid p x (last x xs) w.linked.0 (find_last x xs e),
        later_waiter-Synced x xs e,
        record { status = ground arith; harts = refl; values = λ i. refl },
      )

-- With no unit left, do_semP puts the running process at the end of the semaphore's wait queue as
-- BLOCKED, keeps every other queue and every value, and ends in schedule() from that state.
pub do_sem_p-blocks :
    (tp sid p : ℕ) (k : Kernel) (rs : List ℕ) (ws : ℕ → List ℕ)
    → Synced k rs ws
    → invalid_sid sid k ≡ false
    → (k.sem_table sid).value ≤ℤ pos 0
    → k.current tp ≡ some p
    → p < nproc
    → (k.procs p).status ≡ Status.running
    → (k' : Kernel) × (do_sem_p tp sid k ≡ ok (gone (schedule tp k').0) (schedule tp k').1)
      × Synced k' rs (update ws sid (ws sid ++ (p ∷ [])))
      × ((k'.procs p).status ≡ Status.blocked)
      × ((i : ℕ) → (k'.sem_table i).value ≡ (k.sem_table i).value)
unfolding do_sem_p
do_sem_p-blocks tp sid p k rs ws s valid spent cur lt run =
    let (k', blocks, synced, b) = block_on-Synced k sid p rs ws s lt run spent (ws sid) refl in
    let test : ltb_ℤ (pos 0) (k.sem_table sid).value ≡ false = ground arith in
    (k', rw (valid, test, cur, block_current, blocks), synced, b.status, b.values)

-- With a unit left, do_semP takes it and returns; queues and processes stay as they are.
pub do_sem_p-takes :
    (tp sid n : ℕ) (k : Kernel) (rs : List ℕ) (ws : ℕ → List ℕ)
    → Synced k rs ws
    → invalid_sid sid k ≡ false
    → (k.sem_table sid).value ≡ pos (suc n)
    → (k' : Kernel) × (do_sem_p tp sid k ≡ ok back k')
      × Synced k' rs ws
      × ((k'.sem_table sid).value ≡ pos n)
      × (k'.procs ≡ k.procs)
unfolding do_sem_p
do_sem_p-takes tp sid n k rs ws s valid v =
    let k' = set_sem k sid (record (k.sem_table sid) { value = pos n }) in
    let test : ltb_ℤ (pos 0) (k.sem_table sid).value ≡ true = ground arith in
    let less : (k.sem_table sid).value -ℤ pos 1 ≡ pos n = ground arith in
    let nobody : (ws sid ≡ []) ⊎ (pos n ≤ℤ pos 0) = ground (arith, (s.waits sid).idle) in
    (
      k',
      rw (valid, test, less),
      Synced-same k k' rs rs ws sid s (IsReady-frame k k' rs refl (λ a m. refl) s.ready)
          (λ i a ne m. refl) (λ i ne. ground arith)
          (Waits-value k.procs (k.sem_table sid) (k'.sem_table sid) (ws sid) (ground arith)
            (ground arith) (s.waits sid)),
      ground arith,
      refl,
    )

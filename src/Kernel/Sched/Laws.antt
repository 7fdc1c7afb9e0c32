-- ===== src/Kernel/Sched/Laws.antt =====
-- The ready queue is a first-in first-out queue without duplicates, and schedule() serves its head.
use huster_experiment_pke.Base.{
  ℕ, zero, suc, ◌<◌, List, [], ◌∷◌, ◌++◌, none, some, true, false, Bool-cases, ◌≡◌, refl, ◌∙◌, ◌≢◌,
  ◌⊎◌, inl, inr, arith, ◌∈◌, ◌∉◌, Distinct, All, ◌==◌, if◌then◌else◌,
}
use huster_experiment_pke.Base.Run.{ok}
use huster_experiment_pke.Base.Pigeonhole.{length-Distinct}
use huster_experiment_pke.Kernel.Process.{nproc, Status, is_gone, Process, Kernel, update, set_next}
use huster_experiment_pke.Kernel.Sched.{
  find_tail, tail, enlist, insert_to_ready_queue, insert_behind, after_walk, user, shut_down,
  parked, retry, take_head, schedule, all_process_done, all_process_done_from,
}
use huster_experiment_pke.Kernel.Sched.Queue.{
  Queue, Queue-frame, Queue-snoc, last, last-mem, find_tail-last, find_tail-queued,
}

-- `xs` is the ready queue: distinct slots of procs[], all of them READY
pub record IsReady (k : Kernel) (xs : List ℕ) : Type 0 where
  pub linked : Queue k.procs k.ready_queue_head xs
  pub distinct : Distinct xs
  pub slots : All (λ x. x < nproc) xs
  pub status : All (λ x. (k.procs x).status ≡ Status.ready) xs

-- `k'` agrees with `k` on every slot outside `touched`, and on the semaphores and the harts
pub record Agrees (touched : List ℕ) (k k' : Kernel) : Type 0 where
  pub procs : (a : ℕ) → a ∉ touched → k'.procs a ≡ k.procs a
  pub sems : k'.sem_table ≡ k.sem_table
  pub harts : k'.current ≡ k.current

All-frame :
    (f g : ℕ → Process) (s : Status) (xs : List ℕ)
    → ((a : ℕ) → a ∈ xs → (g a).status ≡ (f a).status)
    → All (λ x. (f x).status ≡ s) xs
    → All (λ x. (g x).status ≡ s) xs
All-frame f g s [] same h = tt
All-frame f g s (x ∷ xs) same h =
    (same x (ground arith) ∙ h.0, All-frame f g s xs (λ a i. same a (ground arith)) h.1)

pub All-snoc : (P : ℕ → Type 0) (xs : List ℕ) (y : ℕ) → All P xs → P y → All P (xs ++ (y ∷ []))
All-snoc P [] y h p = (p, tt)
All-snoc P (x ∷ xs) y h p = (h.0, All-snoc P xs y h.1 p)

pub not-mem-snoc : (a y : ℕ) (xs : List ℕ) → a ∉ xs → a ≢ y → a ∉ xs ++ (y ∷ [])
not-mem-snoc a y [] h ne = ground arith
not-mem-snoc a y (x ∷ xs) h ne = ground (arith, not-mem-snoc a y xs)

pub Distinct-snoc : (xs : List ℕ) (y : ℕ) → Distinct xs → y ∉ xs → Distinct (xs ++ (y ∷ []))
Distinct-snoc [] y d out = (refl, tt)
Distinct-snoc (x ∷ xs) y d out =
    (not-mem-snoc x y xs d.0 (ground arith), Distinct-snoc xs y d.1 (ground arith))

-- the state after `proc` has been linked behind `p`
linked_behind : Kernel → ℕ → ℕ → Kernel
linked_behind k p proc = enlist (set_next k p (some proc)) proc

insert-first :
    (k : Kernel) (proc : ℕ)
    → is_gone (k.procs proc).status ≡ false
    → k.ready_queue_head ≡ none
    → insert_to_ready_queue proc k ≡ ok tt (record (enlist k proc) { ready_queue_head = some proc })
unfolding insert_to_ready_queue
insert-first k proc g e = ground arith

insert-behind :
    (k : Kernel) (proc x : ℕ) (xs : List ℕ)
    → is_gone (k.procs proc).status ≡ false
    → k.ready_queue_head ≡ some x
    → find_tail nproc k.procs x proc ≡ tail (last x xs)
    → insert_to_ready_queue proc k ≡ ok tt (linked_behind k (last x xs) proc)
unfolding insert_to_ready_queue insert_behind after_walk linked_behind
insert-behind k proc x xs g e w = rw (g, e, insert_behind, w)

-- A process that is neither FREE nor ZOMBIE nor in the queue goes to the end of the queue as READY;
-- the slots outside the queue, the semaphores and the harts stay as they are.
pub insert_to_ready_queue-appends :
    (k : Kernel) (proc : ℕ) (xs : List ℕ)
    → IsReady k xs
    → proc < nproc
    → proc ∉ xs
    → is_gone (k.procs proc).status ≡ false
    → (k' : Kernel) × (insert_to_ready_queue proc k ≡ ok tt k')
      × IsReady k' (xs ++ (proc ∷ []))
      × Agrees (proc ∷ xs) k k'
unfolding linked_behind
insert_to_ready_queue-appends k proc [] r lt out g = (
  record (enlist k proc) { ready_queue_head = some proc },
  insert-first k proc g r.linked,
  record {
    linked = (refl, ground arith);
    distinct = (refl, tt);
    slots = (lt, tt);
    status = (ground arith, tt);
  },
  record { procs = λ a o. ground arith; sems = refl; harts = refl },
)
insert_to_ready_queue-appends k proc (x ∷ xs) r lt out g =
    let k' = linked_behind k (last x xs) proc in
    let fits = length-Distinct nproc (x ∷ xs) r.distinct r.slots in
    (
      k',
      insert-behind k proc x xs g r.linked.0
          (find_tail-last nproc k.procs x proc xs r.linked.1 out (omega arith)),
      record {
        linked =
            Queue-snoc k.procs k'.procs k.ready_queue_head x proc xs r.linked r.distinct
              (λ a i ne. ground arith) (ground (arith, last-mem x xs)) (ground arith);
        distinct = Distinct-snoc (x ∷ xs) proc r.distinct out;
        slots = All-snoc (λ y. y < nproc) (x ∷ xs) proc r.slots lt;
        status =
            All-snoc (λ y. (k'.procs y).status ≡ Status.ready) (x ∷ xs) proc
              (All-frame k.procs k'.procs Status.ready (x ∷ xs) (λ a i. ground arith) r.status)
              (ground arith);
      },
      record { procs = λ a o. ground (arith, last-mem x xs); sems = refl; harts = refl },
    )

-- A process that is in the queue already, or is FREE or ZOMBIE, is not inserted: nothing changes.
pub insert_to_ready_queue_unchanged :
    (k : Kernel) (proc : ℕ) (xs : List ℕ)
    → IsReady k xs
    → (proc ∈ xs) ⊎ (is_gone (k.procs proc).status ≡ true)
    → insert_to_ready_queue proc k ≡ ok tt k
unfolding insert_to_ready_queue insert_behind after_walk
insert_to_ready_queue_unchanged k proc xs r (inr gone) = ground arith
insert_to_ready_queue_unchanged k proc [] r (inl i) = cc
insert_to_ready_queue_unchanged k proc (x ∷ xs) r (inl i) =
    let fits = length-Distinct nproc (x ∷ xs) r.distinct r.slots in
    elim (Bool-cases (is_gone (k.procs proc).status)) [
      | inl gone ↦ rw gone
      | inr live ↦ rw (
        live,
        r.linked.0,
        insert_behind,
        find_tail-queued nproc k.procs x proc xs r.linked.1 i (omega arith),
      )
    ]

-- schedule() runs the process at the head of the queue: it becomes RUNNING and the hart's current
-- process, with its link cleared and its other fields kept, and the queue keeps the others in order. The other
-- processes, the semaphores and the other harts' current processes stay.
pub schedule-head :
    (tp : ℕ) (k : Kernel) (p : ℕ) (xs : List ℕ)
    → IsReady k (p ∷ xs)
    → (k' : Kernel) × (schedule tp k ≡ (user p, k'))
      × IsReady k' xs
      × (k'.current tp ≡ some p)
      × (k'.procs p ≡ record (k.procs p) { queue_next = none; status = Status.running })
      × ((a : ℕ) → a ≢ p → k'.procs a ≡ k.procs a)
      × (k'.sem_table ≡ k.sem_table)
      × ((h : ℕ) → h ≢ tp → k'.current h ≡ k.current h)
unfolding schedule
schedule-head tp k p xs r =
    let v = k.procs p in
    let k' : Kernel = record k {
      current = update k.current tp (some p);
      ready_queue_head = v.queue_next;
      procs = update k.procs p (record v { queue_next = none; status = Status.running });
    } in
    (
      k',
      rw (r.linked.0, take_head),
      record {
        linked =
            Queue-frame k.procs k'.procs v.queue_next xs (λ a i. ground (arith, r.distinct.0))
              r.linked.1;
        distinct = r.distinct.1;
        slots = r.slots.1;
        status =
            All-frame k.procs k'.procs Status.ready xs (λ a i. ground (arith, r.distinct.0))
              r.status.1;
      },
      ground arith,
      ground arith,
      λ a ne. ground arith,
      refl,
      λ h ne. ground arith,
    )

done_from_sound :
    (n : ℕ) (f : ℕ → Process) (a : ℕ)
    → all_process_done_from n f ≡ true
    → a < n
    → is_gone (f a).status ≡ true
unfolding all_process_done_from
done_from_sound zero f a h lt = absurd (omega arith)
done_from_sound (suc n) f a h lt = ground (arith, done_from_sound n f a)

done_from_complete :
    (n : ℕ) (f : ℕ → Process)
    → ((a : ℕ) → a < n → is_gone (f a).status ≡ true)
    → all_process_done_from n f ≡ true
unfolding all_process_done_from
done_from_complete zero f h = refl
done_from_complete (suc n) f h =
    ground (arith, h n, done_from_complete n f (λ a lt. h a (omega arith)))

-- With an empty queue schedule() changes nothing. It shuts the machine down (on hart 0, and parks the
-- others) exactly when every slot is FREE or ZOMBIE, and otherwise waits for an interrupt.
pub schedule-empty :
    (tp : ℕ) (k : Kernel)
    → IsReady k []
    → (((a : ℕ) → a < nproc → is_gone (k.procs a).status ≡ true)
        → schedule tp k ≡ (if tp == 0 then shut_down else parked, k))
      × ((a : ℕ) → a < nproc → is_gone (k.procs a).status ≡ false → schedule tp k ≡ (retry, k))
unfolding schedule all_process_done
schedule-empty tp k r = (
  λ all. rw (r.linked, take_head, done_from_complete nproc k.procs all),
  λ a lt live. elim (Bool-cases (all_process_done_from nproc k.procs)) [
    | inl d ↦ cc (done_from_sound nproc k.procs a d lt)
    | inr more ↦ rw (r.linked, take_head, more)
  ],
)

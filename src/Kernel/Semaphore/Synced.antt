-- ===== src/Kernel/Semaphore/Synced.antt =====
-- The invariant of the queues: the ready queue and the semaphores' wait queues are lists of distinct
-- slots that share no member, and a semaphore with a waiting process has no unit left.
use mathlib.Core.Path.{subst, fun_ext}
use native.Mathlib.Decide.{ℕ_discrete}
use huster_experiment_pke.Base.{
  ℕ, ◌<◌, List, [], ◌∷◌, ◌++◌, true, false, ◌≡◌, refl, sym, ap, ◌∙◌, ◌≢◌, ◌⊎◌, arith, ◌∈◌, ◌∉◌,
  Distinct, All, ◌==◌,
}
use huster_experiment_pke.Base.Int.{pos, ◌≤ℤ◌}
use huster_experiment_pke.Kernel.Process.{nproc, Status, Process, Semaphore, Kernel, update}
use huster_experiment_pke.Kernel.Sched.Queue.{Queue, Queue-frame}
use huster_experiment_pke.Kernel.Sched.Laws.{IsReady}

-- `xs` waits on the semaphore `s`
pub record Waits (f : ℕ → Process) (s : Semaphore) (xs : List ℕ) : Type 0 where
  pub linked : Queue f s.wait_queue xs
  pub distinct : Distinct xs
  pub slots : All (λ x. x < nproc) xs
  pub status : All (λ x. (f x).status ≡ Status.blocked) xs
  pub idle : (xs ≡ []) ⊎ (s.value ≤ℤ pos 0)

-- no slot waits on two semaphores
abbrev pub Apart : (ℕ → List ℕ) → Type 0
Apart ws = (i j a : ℕ) → a ∈ ws i → a ∈ ws j → i ≡ j

pub record Synced (k : Kernel) (rs : List ℕ) (ws : ℕ → List ℕ) : Type 0 where
  pub ready : IsReady k rs
  pub waits : (i : ℕ) → Waits k.procs (k.sem_table i) (ws i)
  pub apart : Apart ws

pub All-status :
    (f : ℕ → Process) (s : Status) (a : ℕ) (xs : List ℕ)
    → All (λ x. (f x).status ≡ s) xs
    → a ∈ xs
    → (f a).status ≡ s
All-status f s a [] h i = cc
All-status f s a (x ∷ xs) h i = ground (arith, All-status f s a xs)

pub All-status_frame :
    (f g : ℕ → Process) (s : Status) (xs : List ℕ)
    → ((a : ℕ) → a ∈ xs → (g a).status ≡ (f a).status)
    → All (λ x. (f x).status ≡ s) xs
    → All (λ x. (g x).status ≡ s) xs
All-status_frame f g s [] same h = tt
All-status_frame f g s (x ∷ xs) same h =
    (same x (ground arith) ∙ h.0, All-status_frame f g s xs (λ a i. same a (ground arith)) h.1)

-- a process of another status is in no queue of that status
pub not-mem_of_status :
    (f : ℕ → Process) (s : Status) (a : ℕ) (xs : List ℕ)
    → All (λ x. (f x).status ≡ s) xs
    → (f a).status ≢ s
    → a ∉ xs
not-mem_of_status f s a [] h ne = refl
not-mem_of_status f s a (x ∷ xs) h ne = ground (arith, not-mem_of_status f s a xs)

pub Waits-frame :
    (f g : ℕ → Process) (s : Semaphore) (xs : List ℕ)
    → ((a : ℕ) → a ∈ xs → g a ≡ f a)
    → Waits f s xs
    → Waits g s xs
Waits-frame f g s xs same w = record {
  linked =
      Queue-frame f g s.wait_queue xs (λ a i. ap (λ (v : Process). v.queue_next) (same a i))
        w.linked;
  distinct = w.distinct;
  slots = w.slots;
  status =
      All-status_frame f g Status.blocked xs (λ a i. ap (λ (v : Process). v.status) (same a i))
        w.status;
  idle = w.idle;
}

-- the ready queue under a change to slots outside it
pub IsReady-frame :
    (k k' : Kernel) (rs : List ℕ)
    → k'.ready_queue_head ≡ k.ready_queue_head
    → ((a : ℕ) → a ∈ rs → k'.procs a ≡ k.procs a)
    → IsReady k rs
    → IsReady k' rs
IsReady-frame k k' rs e same r = record {
  linked = rw e (
      Queue-frame k.procs k'.procs k.ready_queue_head rs
        (λ a i. ap (λ (v : Process). v.queue_next) (same a i)) r.linked);
  distinct = r.distinct;
  slots = r.slots;
  status =
      All-status_frame k.procs k'.procs Status.ready rs
        (λ a i. ap (λ (v : Process). v.status) (same a i)) r.status;
}

-- What an operation on the semaphore `sid` has to keep: the ready queue, the waiters of the others,
-- and the new list of waiters of `sid`.
pub Synced-at :
    (k k' : Kernel) (rs rs' : List ℕ) (ws : ℕ → List ℕ) (sid : ℕ) (xs : List ℕ)
    → Synced k rs ws
    → IsReady k' rs'
    → ((i a : ℕ) → i ≢ sid → a ∈ ws i → k'.procs a ≡ k.procs a)
    → ((i : ℕ) → i ≢ sid → k'.sem_table i ≡ k.sem_table i)
    → Waits k'.procs (k'.sem_table sid) xs
    → Apart (update ws sid xs)
    → Synced k' rs' (update ws sid xs)
Synced-at k k' rs rs' ws sid xs s r procs sems here ap' = record {
  ready = r;
  waits = each;
  apart = ap';
}
  where
    each : (i : ℕ) → Waits k'.procs (k'.sem_table i) (update ws sid xs i)
    each i = elim (ℕ_discrete i sid) [
      | yes e ↦
          let test : (i == sid) ≡ true = ground arith in
          rw test (subst (λ j. Waits k'.procs (k'.sem_table j) xs) (sym e) here)
      | no ne ↦
          let test : (i == sid) ≡ false = ground arith in
          rw (test, sems i ne)
            (Waits-frame k.procs k'.procs (k.sem_table i) (ws i) (λ a m. procs i a ne m)
              (s.waits i))
    ]

pub Apart-tail :
    (ws : ℕ → List ℕ) (k x : ℕ) (xs : List ℕ) → ws k ≡ x ∷ xs → Apart ws → Apart (update ws k xs)
Apart-tail ws k x xs e ap' i j a p q = ap' i j a (lift i p) (lift j q)
  where
    lift : (i : ℕ) → a ∈ update ws k xs i → a ∈ ws i
    lift i p = elim (ℕ_discrete i k) [ yes eq ↦ rw (eq, e) (ground arith) | no ne ↦ ground arith ]

mem-snoc : (a y : ℕ) (xs : List ℕ) → a ∈ xs ++ (y ∷ []) → (a ∈ xs) ⊎ (a ≡ y)
mem-snoc a y [] h = ground arith
mem-snoc a y (x ∷ xs) h = ground (arith, mem-snoc a y xs)

pub Apart-snoc :
    (ws : ℕ → List ℕ) (k p : ℕ)
    → ((i : ℕ) → p ∉ ws i)
    → Apart ws
    → Apart (update ws k (ws k ++ (p ∷ [])))
Apart-snoc ws k p out ap' i j a m n = elim (ℕ_discrete a p) [
  | yes e ↦ home i e m ∙ sym (home j e n)
  | no ne ↦ ap' i j a (old i ne m) (old j ne n)
]
  where
    old : (i : ℕ) → a ≢ p → a ∈ update ws k (ws k ++ (p ∷ [])) i → a ∈ ws i
    old i ne m = elim (ℕ_discrete i k) [
      | yes eq ↦ ground (arith, mem-snoc a p (ws k))
      | no other ↦ ground arith
    ]

    home : (i : ℕ) → a ≡ p → a ∈ update ws k (ws k ++ (p ∷ [])) i → i ≡ k
    home i e m = elim (ℕ_discrete i k) [ yes eq ↦ eq | no other ↦ ground (arith, out i) ]

update_same : (ws : ℕ → List ℕ) (k : ℕ) → update ws k (ws k) ≡ ws
update_same ws k = fun_ext (λ i. elim (ℕ_discrete i k) [
  | yes e ↦ let test : (i == k) ≡ true = ground arith in rw test (rw e)
  | no ne ↦ let test : (i == k) ≡ false = ground arith in rw test
])

-- the same for an operation that leaves the list of waiters of `sid` as it is
pub Synced-same :
    (k k' : Kernel) (rs rs' : List ℕ) (ws : ℕ → List ℕ) (sid : ℕ)
    → Synced k rs ws
    → IsReady k' rs'
    → ((i a : ℕ) → i ≢ sid → a ∈ ws i → k'.procs a ≡ k.procs a)
    → ((i : ℕ) → i ≢ sid → k'.sem_table i ≡ k.sem_table i)
    → Waits k'.procs (k'.sem_table sid) (ws sid)
    → Synced k' rs' ws
Synced-same k k' rs rs' ws sid s r procs sems here =
    subst (λ v. Synced k' rs' v) (update_same ws sid)
      (Synced-at k k' rs rs' ws sid (ws sid) s r procs sems here
        (subst Apart (sym (update_same ws sid)) s.apart))

-- another value, where nobody waits or there is no unit
pub Waits-value :
    (f : ℕ → Process) (s s' : Semaphore) (xs : List ℕ)
    → s'.wait_queue ≡ s.wait_queue
    → (xs ≡ []) ⊎ (s'.value ≤ℤ pos 0)
    → Waits f s xs
    → Waits f s' xs
Waits-value f s s' xs e i w = record {
  linked = rw e w.linked;
  distinct = w.distinct;
  slots = w.slots;
  status = w.status;
  idle = i;
}

pub mem-snoc_self : (y : ℕ) (xs : List ℕ) → y ∈ xs ++ (y ∷ [])
mem-snoc_self y [] = ground arith
mem-snoc_self y (x ∷ xs) = ground (arith, mem-snoc_self y xs)

-- ===== src/Kernel/Sched/Fields.antt =====
-- kernel/sched.c: what insert_to_ready_queue leaves alone in every process, the one inserted included.
use mathlib.Core.Path.{subst}
use huster_experiment_pke.Base.{ℕ, Option, none, some, ◌≡◌, refl, arith, Bool-cases, inl, inr}
use huster_experiment_pke.Base.Run.{Run, ok, fault}
use huster_experiment_pke.Kernel.Process.{Process, Kernel, is_gone, nproc}
use huster_experiment_pke.Kernel.Sched.{
  Walk, queued, tail, endless, find_tail, after_walk, insert_behind, insert_to_ready_queue,
}

-- the fields that are neither the status nor the link
pub record SameFields (v w : Process) : Type 0 where
  pub tick_count : w.tick_count ≡ v.tick_count
  pub parent : w.parent ≡ v.parent
  pub a0 : w.a0 ≡ v.a0

data Kept (k : Kernel) : Run Kernel (Unit {0}) → Type 0 where
  ran : (k' : Kernel) → ((a : ℕ) → SameFields (k.procs a) (k'.procs a)) → Kept k (ok tt k')
  failed : Kept k fault

after_walk-Kept : (w : Walk) (proc : ℕ) (k : Kernel) → Kept k (after_walk w proc k)
unfolding after_walk
after_walk-Kept queued proc k = ran k (λ a. record { tick_count = refl; parent = refl; a0 = refl })
after_walk-Kept (tail p) proc k =
    ran _ (λ a. record { tick_count = ground arith; parent = ground arith; a0 = ground arith })
after_walk-Kept endless proc k = failed

insert_behind-Kept : (h : Option ℕ) (proc : ℕ) (k : Kernel) → Kept k (insert_behind h proc k)
unfolding insert_behind
insert_behind-Kept none proc k =
    ran _ (λ a. record { tick_count = ground arith; parent = ground arith; a0 = ground arith })
insert_behind-Kept (some h) proc k = after_walk-Kept (find_tail nproc k.procs h proc) proc k

insert-Kept : (proc : ℕ) (k : Kernel) → Kept k (insert_to_ready_queue proc k)
unfolding insert_to_ready_queue
insert-Kept proc k = elim (Bool-cases (is_gone (k.procs proc).status)) [
  | inl gone ↦ rw gone (ran k (λ a. record { tick_count = refl; parent = refl; a0 = refl }))
  | inr live ↦ rw live (insert_behind-Kept k.ready_queue_head proc k)
]

outcome :
    (k k' : Kernel) (r : Run Kernel (Unit {0})) (a : ℕ)
    → Kept k r
    → r ≡ ok tt k'
    → SameFields (k.procs a) (k'.procs a)
outcome k k' _ a (ran k₁ same) e =
    let it : k₁ ≡ k' = cc in subst (λ (q : Kernel). SameFields (k.procs a) (q.procs a)) it (same a)
outcome k k' _ a failed e = absurd (cc)

pub insert-SameFields :
    (k k' : Kernel) (proc a : ℕ)
    → insert_to_ready_queue proc k ≡ ok tt k'
    → SameFields (k.procs a) (k'.procs a)
insert-SameFields k k' proc a e =
    outcome k k' (insert_to_ready_queue proc k) a (insert-Kept proc k) e

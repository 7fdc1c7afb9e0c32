-- ===== src/Kernel/Lifecycle/Wait.antt =====
-- sys_user_wait: which child it reports, when it blocks, and what it leaves of the child.
use mathlib.Core.Path.{fun_ext, subst}
use huster_experiment_pke.Base.{
  ℕ, zero, suc, ◌+◌, ◌≤◌, ◌<◌, List, Option, none, some, false, ◌≡◌, refl, ap, ◌≢◌, ◌⊎◌, inl, inr,
  arith, leb, Bool-cases, Option-cases,
}
use huster_experiment_pke.Base.Int.{pos, minus_one}
use huster_experiment_pke.Base.Run.{ok}
use huster_experiment_pke.Kernel.Process.{
  nproc, Status, Process, Kernel, set_status, free_process, same_process,
}
use huster_experiment_pke.Kernel.Sched.{schedule}
use huster_experiment_pke.Kernel.Semaphore.Synced.{Synced}
use huster_experiment_pke.Kernel.Semaphore.Block.{running_nowhere}
use huster_experiment_pke.Kernel.Semaphore.Scheduling.{set_proc-Synced}
use huster_experiment_pke.Kernel.Lifecycle.{
  reply, left, sys_user_wait, wait_of, wait_any, zombie_child,
}
use huster_experiment_pke.Kernel.Lifecycle.Laws.{Runs}

-- `c` is a child of `p` that has ended
abbrev pub IsEnded : Kernel → ℕ → ℕ → Type 0
IsEnded k p c = ((k.procs c).parent ≡ some p) × ((k.procs c).status ≡ Status.zombie)

zombie_child-found :
    (n i : ℕ) (k : Kernel) (p c : ℕ)
    → zombie_child n i k.procs p ≡ some c
    → IsEnded k p c × (c < i + n)
unfolding zombie_child
zombie_child-found zero i k p c e = cc
zombie_child-found (suc n) i k p c e = ground (arith, zombie_child-found n (i + 1) k p c)

zombie_child-none :
    (n i : ℕ) (k : Kernel) (p c : ℕ)
    → zombie_child n i k.procs p ≡ none
    → i ≤ c
    → c < i + n
    → ¬ IsEnded k p c
unfolding zombie_child
zombie_child-none zero i k p c e lo hi = absurd (omega arith)
zombie_child-none (suc n) i k p c e lo hi = ground (arith, zombie_child-none n (i + 1) k p c)

free_process_again :
    (k : Kernel) (c : ℕ) → (k.procs c).status ≡ Status.zombie → free_process k c ≡ k
unfolding free_process
free_process_again k c z =
    ap (λ (f : ℕ → Process). record k { procs = f }) (fun_ext (λ a. ground arith))

-- wait(-1) reports an ended child if there is one, and then changes nothing. Otherwise the process is
-- BLOCKED, in no queue, and the kernel enters schedule().
pub sys_user_wait-any :
    (k : Kernel) (tp p : ℕ) (rs : List ℕ) (ws : ℕ → List ℕ)
    → Synced k rs ws
    → Runs k tp p
    → ((c : ℕ) × (c < nproc)
        × IsEnded k p c
        × (sys_user_wait minus_one tp k ≡ ok (reply (pos c)) k))
      ⊎ (((c : ℕ) → c < nproc → ¬ IsEnded k p c)
          × Synced (set_status k p Status.blocked) rs ws
          × (sys_user_wait minus_one tp k
              ≡ ok
                  (left (schedule tp (set_status k p Status.blocked)).0)
                  (schedule tp (set_status k p Status.blocked)).1))
unfolding sys_user_wait wait_any
sys_user_wait-any k tp p rs ws s r = elim (Option-cases (zombie_child nproc 0 k.procs p)) [
  | inr (c, e) ↦
      let (ended, lt) = zombie_child-found nproc 0 k p c e in
      inl (
        c,
        omega arith,
        ended,
        rw (r.current, wait_of, e)
            (ap (λ (q : Kernel). ok (reply (pos c)) q) (free_process_again k c ended.1)),
      )
  | inl e ↦
      let (out, away) = running_nowhere k p rs ws s r.status in
      let v : Process = record (k.procs p) { status = Status.blocked } in
      inr (
        λ c lt. zombie_child-none nproc 0 k p c e (omega arith) (omega arith),
        set_proc-Synced k p v rs ws s out away,
        rw (r.current, wait_of, e),
      )
]

same_process_ne : (o : Option ℕ) (p : ℕ) → o ≢ some p → same_process o p ≡ false
same_process_ne none p ne = refl
same_process_ne (some q) p ne = ground arith

-- wait(c) for a slot that is no child of the caller fails with -1 and changes nothing.
pub sys_user_wait_stranger :
    (k : Kernel) (tp p c : ℕ)
    → k.current tp ≡ some p
    → (nproc ≤ c) ⊎ ((k.procs c).parent ≢ some p)
    → sys_user_wait (pos c) tp k ≡ ok (reply minus_one) k
unfolding sys_user_wait
sys_user_wait_stranger k tp p c cur h =
    rw (cur, wait_of)
      (elim (Bool-cases (leb nproc c)) [
        | inl big ↦ rw big
        | inr fits ↦
            let other : same_process (k.procs c).parent p ≡ false =
              same_process_ne (k.procs c).parent p (ground arith) in
            rw (fits, other)
      ])

wait_answered :
    (k : Kernel) (tp p d : ℕ)
    → k.current tp ≡ some p
    → zombie_child nproc 0 k.procs p ≡ some d
    → sys_user_wait minus_one tp k ≡ ok (reply (pos d)) k
unfolding sys_user_wait wait_any
wait_answered k tp p d cur e =
    rw (cur, wait_of, e)
      (ap (λ (q : Kernel). ok (reply (pos d)) q)
        (free_process_again k d (zombie_child-found nproc 0 k p d e).0.1))

wait_unanswered :
    (k k' : Kernel) (tp p c : ℕ)
    → k.current tp ≡ some p
    → zombie_child nproc 0 k.procs p ≡ none
    → sys_user_wait minus_one tp k ≢ ok (reply (pos c)) k'
unfolding sys_user_wait wait_any
wait_unanswered k k' tp p c cur e h =
    let run : wait_any none tp p k ≡ ok (reply (pos c)) k' = rw (cur, wait_of, e) at h in cc

-- The slot of a child that was reported is not given back: the child stays a ZOMBIE, and every further
-- wait(-1) reports the same child again.
pub sys_user_wait_again :
    (k k' : Kernel) (tp p c : ℕ)
    → k.current tp ≡ some p
    → sys_user_wait minus_one tp k ≡ ok (reply (pos c)) k'
    → ((k'.procs c).status ≡ Status.zombie)
      × (sys_user_wait minus_one tp k' ≡ ok (reply (pos c)) k')
sys_user_wait_again k k' tp p c cur h = elim (Option-cases (zombie_child nproc 0 k.procs p)) [
  | inl e ↦ absurd (wait_unanswered k k' tp p c cur e h)
  | inr (d, e) ↦
      let answer = wait_answered k tp p d cur e in
      let ended = (zombie_child-found nproc 0 k p d e).0 in
      let same : k ≡ k' = cc in
      let child : d ≡ c = cc in
      subst
        (λ (q : Kernel).
          ((q.procs c).status ≡ Status.zombie)
          × (sys_user_wait minus_one tp q ≡ ok (reply (pos c)) q))
        same (rw (← child) ended.1, rw (← child) answer)
]

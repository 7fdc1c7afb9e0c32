-- ===== src/Kernel/Lifecycle.antt =====
-- The system calls that end, suspend or wait for a process (kernel/syscall.c), the timer's round
-- robin (kernel/strap.c), and the return value that handle_syscall stores.
pub mod Laws
pub mod Wait
pub mod Exit
mod Tests
use huster_experiment_pke.Base.{
  ℕ, zero, suc, ◌+◌, Bool, true, false, not, ◌&&◌, ◌||◌, Option, none, some, ◌==◌, ltb, leb,
  if◌then◌else◌,
}
use huster_experiment_pke.Base.Int.{ℤ, pos, negsuc, minus_one}
use huster_experiment_pke.Base.Run.{Run, ok, fault, done, and_then}
use huster_experiment_pke.Kernel.Process.{
  nproc, Status, is_zombie, is_gone, Process, Kernel, set_proc, set_status, free_process,
  same_process,
}
use huster_experiment_pke.Kernel.Sched.{Where, insert_to_ready_queue, then_schedule, exit_current}
use huster_experiment_pke.Kernel.Semaphore.{Control, back, gone, do_sem_new, do_sem_p, do_sem_v}

-- A handler replies to its caller, or has left the kernel through schedule(). switch_to() ends in
-- `sret` and resets the kernel stack on the next trap, so the code behind a call of schedule(), such
-- as a further round of the loops of sys_user_wait, is not reached.
pub data Reply : Type 0 where
  reply : ℤ → Reply
  left : Where → Reply

abbrev pub leave : Run Kernel Where → Run Kernel Reply
leave r = and_then r (λ w k. ok (left w) k)

unfoldable pub sys_user_exit : ℕ → Kernel → Run Kernel Reply
sys_user_exit tp k = leave (exit_current (k.current tp) tp k)

yield_of : Option ℕ → ℕ → Kernel → Run Kernel Reply
yield_of none tp k = fault
yield_of (some p) tp k =
    leave (then_schedule tp (insert_to_ready_queue p (set_status k p Status.ready)))

unfoldable pub sys_user_yield : ℕ → Kernel → Run Kernel Reply
unfolding yield_of
sys_user_yield tp k = yield_of (k.current tp) tp k

abbrev pub time_slice_len : ℕ
time_slice_len = 2

abbrev pub set_tick : Kernel → ℕ → ℕ → Kernel
set_tick k p n = set_proc k p (record (k.procs p) { tick_count = n })

-- `none`: back to the process; else it has used up its time slice
rrsched_of : Option ℕ → ℕ → Kernel → Run Kernel (Option Where)
rrsched_of none tp k = fault
rrsched_of (some p) tp k =
    let t = (k.procs p).tick_count + 1 in
    if leb time_slice_len t
    then and_then
        (then_schedule tp (insert_to_ready_queue p (set_status (set_tick k p 0) p Status.ready)))
        (λ w k'. ok (some w) k')
    else ok none (set_tick k p t)

unfoldable pub rrsched : ℕ → Kernel → Run Kernel (Option Where)
unfolding rrsched_of
rrsched tp k = rrsched_of (k.current tp) tp k

-- the first ZOMBIE child of `p` among the `n` slots from `i` on
pub zombie_child : ℕ → ℕ → (ℕ → Process) → ℕ → Option ℕ
zombie_child zero i f p = none
zombie_child (suc n) i f p = elim (same_process (f i).parent p && is_zombie (f i).status) [
  | true ↦ some i
  | false ↦ zombie_child n (i + 1) f p
]

abbrev block : ℕ → ℕ → Kernel → Run Kernel Reply
block tp p k = leave (then_schedule tp (done (set_status k p Status.blocked)))

wait_any : Option ℕ → ℕ → ℕ → Kernel → Run Kernel Reply
wait_any (some c) tp p k = ok (reply (pos c)) (free_process k c)
wait_any none tp p k = block tp p k

wait_one : ℕ → ℕ → ℕ → Kernel → Run Kernel Reply
wait_one c tp p k =
    if leb nproc c || not (same_process (k.procs c).parent p)
    then ok (reply minus_one) k
    else (if is_zombie (k.procs c).status
        then ok (reply (pos c)) (free_process k c)
        else block tp p k)

wait_for : ℤ → ℕ → ℕ → Kernel → Run Kernel Reply
unfolding wait_any wait_one zombie_child
wait_for (pos c) tp p k = wait_one c tp p k
wait_for (negsuc zero) tp p k = wait_any (zombie_child nproc 0 k.procs p) tp p k
wait_for (negsuc (suc n)) tp p k = ok (reply minus_one) k

wait_of : Option ℕ → ℤ → ℕ → Kernel → Run Kernel Reply
unfolding wait_for
wait_of none pid tp k = fault
wait_of (some p) pid tp k = wait_for pid tp p k

-- `current[tp]` is not NULL in a system call; a NULL there would be compared with `parent`.
unfoldable pub sys_user_wait : ℤ → ℕ → Kernel → Run Kernel Reply
unfolding wait_of
sys_user_wait pid tp k = wait_of (k.current tp) pid tp k

-- handle_syscall stores what do_syscall returns in a0 of the trapframe of `p`; a handler that has
-- left never comes back to this assignment.
unfoldable pub store_reply : ℕ → Reply → Kernel → Kernel
store_reply p (reply v) k = set_proc k p (record (k.procs p) { a0 = v })
store_reply p (left w) k = k

answered : Control → Kernel → Run Kernel Reply
answered back k = ok (reply (pos 0)) k
answered (gone w) k = ok (left w) k

unfoldable pub sys_user_sem_new : ℕ → Kernel → Run Kernel Reply
sys_user_sem_new init_val k = ok (reply (do_sem_new init_val k).0) (do_sem_new init_val k).1

unfoldable pub sys_user_sem_p : ℕ → ℕ → Kernel → Run Kernel Reply
unfolding answered
sys_user_sem_p tp sid k = and_then (do_sem_p tp sid k) answered

unfoldable pub sys_user_sem_v : ℕ → ℕ → Kernel → Run Kernel Reply
unfolding answered
sys_user_sem_v tp sid k = and_then (do_sem_v tp sid k) answered

-- ===== src/Kernel/Semaphore.antt =====
-- The semaphores of kernel/process.c: do_semNew, do_semP and do_semV. Waiting processes are linked
-- through the same `queue_next` field as the ready queue.
pub mod Synced
pub mod Block
pub mod Wake
pub mod Scheduling
mod Tests
use huster_experiment_pke.Base.{
  ℕ, zero, suc, ◌+◌, ◌-◌, ◌%◌, ◌^◌, Bool, true, false, not, ◌||◌, Option, none, some, ◌==◌, ltb,
  leb, if◌then◌else◌,
}
use huster_experiment_pke.Base.Int.{ℤ, pos, negsuc, ◌+ℤ◌, ◌-ℤ◌, ltb_ℤ, minus_one}
use huster_experiment_pke.Base.Run.{Run, ok, fault, done, and_then}
use huster_experiment_pke.Kernel.Process.{
  nproc, nsem, Status, Process, Semaphore, Kernel, set_status, set_next, set_sem,
}
use huster_experiment_pke.Kernel.Sched.{
  Where, insert_to_ready_queue, kill_current_process, then_schedule,
}

-- `(int)init_val`
abbrev pub int_of : ℕ → ℤ
int_of n = let w = n % 2 ^ 32 in if ltb w (2 ^ 31) then pos w else negsuc (2 ^ 32 - w - 1)

-- the first slot from `i` on that is not in use, `n` slots being left
pub find_unused : ℕ → ℕ → (ℕ → Semaphore) → Option ℕ
find_unused zero i f = none
find_unused (suc n) i f = elim (f i).ifuse [ false ↦ some i | true ↦ find_unused n (i + 1) f ]

new_at : Option ℕ → ℤ → Kernel → ℤ × Kernel
new_at none v k = (minus_one, k)
new_at (some i) v k = (pos i, set_sem k i (record { ifuse = true; value = v; wait_queue = none }))

unfoldable pub do_sem_new : ℕ → Kernel → ℤ × Kernel
unfolding new_at find_unused
do_sem_new init_val k = new_at (find_unused nsem 0 k.sem_table) (int_of init_val) k

-- A handler comes back to its caller, or has left the kernel through schedule().
pub data Control : Type 0 where
  back : Control
  gone : Where → Control

abbrev pub leaving : Run Kernel Where → Run Kernel Control
leaving r = and_then r (λ w k. ok (gone w) k)

-- `while (p->queue_next != NULL) p = p->queue_next`
pub wait_tail : ℕ → (ℕ → Process) → ℕ → Option ℕ
wait_tail zero f p = none
wait_tail (suc n) f p = elim (f p).queue_next [ none ↦ some p | some q ↦ wait_tail n f q ]

link_last : Option ℕ → ℕ → Kernel → Run Kernel (Unit {0})
link_last none p k = fault
link_last (some t) p k = done (set_next k t (some p))

link_waiter : Option ℕ → ℕ → ℕ → Kernel → Run Kernel (Unit {0})
unfolding link_last
link_waiter none sid p k = done (set_sem k sid (record (k.sem_table sid) { wait_queue = some p }))
link_waiter (some h) sid p k = link_last (wait_tail nproc k.procs h) p k

-- the part of do_semP for a semaphore with no unit left, up to the call of schedule()
unfoldable pub block_on : ℕ → ℕ → Kernel → Run Kernel (Unit {0})
unfolding link_waiter wait_tail
block_on sid p k =
    and_then (link_waiter (k.sem_table sid).wait_queue sid p (set_next k p none))
      (λ _ k'. done (set_status k' p Status.blocked))

block_current : Option ℕ → ℕ → ℕ → Kernel → Run Kernel Control
block_current none tp sid k = fault
block_current (some p) tp sid k = leaving (then_schedule tp (block_on sid p k))

abbrev pub invalid_sid : ℕ → Kernel → Bool
invalid_sid sid k = leb nsem sid || not (k.sem_table sid).ifuse

-- The value is an `int`; its overflow past 2^31 - 1 by do_semV is not modelled.
unfoldable pub do_sem_p : ℕ → ℕ → Kernel → Run Kernel Control
unfolding block_current
do_sem_p tp sid k =
    let sem = k.sem_table sid in
    if invalid_sid sid k
    then leaving (kill_current_process tp k)
    else (if ltb_ℤ (pos 0) sem.value
        then ok back (set_sem k sid (record sem { value = sem.value -ℤ pos 1 }))
        else block_current (k.current tp) tp sid k)

wake_first : Option ℕ → ℕ → Kernel → Run Kernel (Unit {0})
wake_first none sid k = done k
wake_first (some p) sid k =
    let sem = k.sem_table sid in
    insert_to_ready_queue p (
      set_next
        (set_sem k sid
          (record sem { wait_queue = (k.procs p).queue_next; value = sem.value -ℤ pos 1 }))
        p none)

unfoldable pub do_sem_v : ℕ → ℕ → Kernel → Run Kernel Control
unfolding wake_first
do_sem_v tp sid k =
    let sem = k.sem_table sid in
    if invalid_sid sid k
    then leaving (kill_current_process tp k)
    else and_then
        (wake_first sem.wait_queue sid (set_sem k sid (record sem { value = sem.value +ℤ pos 1 })))
        (λ _ k'. ok back k')

-- ===== src/Kernel/Sched.antt =====
-- kernel/sched.c: the ready queue, linked through `queue_next`, and the scheduler. Both functions
-- take `rq_lock` around the accesses to the queue, so each is one step here.
pub mod Queue
pub mod Laws
pub mod Fields
mod Tests
use huster_experiment_pke.Base.{
  ℕ, zero, suc, ◌+◌, Bool, true, false, not, ◌&&◌, ◌||◌, Option, none, some, ◌==◌, if◌then◌else◌,
}
use huster_experiment_pke.Base.Run.{Run, ok, fault, done, and_then}
use huster_experiment_pke.Kernel.Process.{
  nproc, Status, is_gone, is_blocked, Process, Kernel, update, set_proc, set_status, set_next,
  free_process,
}

-- The walk to the end of the queue: `proc` was met, the last element, or no end within the fuel.
pub data Walk : Type 0 where
  queued : Walk
  tail : ℕ → Walk
  endless : Walk

pub find_tail : ℕ → (ℕ → Process) → ℕ → ℕ → Walk
find_tail zero f p proc = endless
find_tail (suc n) f p proc = elim (f p).queue_next [
  | none ↦ if p == proc then queued else tail p
  | some q ↦ elim (p == proc) [ true ↦ queued | false ↦ find_tail n f q proc ]
]

-- `proc->status = READY; proc->queue_next = NULL`
abbrev pub enlist : Kernel → ℕ → Kernel
enlist k proc = set_proc k proc (record (k.procs proc) { status = Status.ready; queue_next = none })

after_walk : Walk → ℕ → Kernel → Run Kernel (Unit {0})
after_walk queued proc k = done k
after_walk (tail p) proc k = done (enlist (set_next k p (some proc)) proc)
after_walk endless proc k = fault

insert_behind : Option ℕ → ℕ → Kernel → Run Kernel (Unit {0})
unfolding after_walk
insert_behind none proc k = done (record (enlist k proc) { ready_queue_head = some proc })
insert_behind (some h) proc k = after_walk (find_tail nproc k.procs h proc) proc k

-- A queue of distinct slots has at most NPROC elements, so NPROC rounds reach its end.
unfoldable pub insert_to_ready_queue : ℕ → Kernel → Run Kernel (Unit {0})
unfolding insert_behind find_tail
insert_to_ready_queue proc k =
    if is_gone (k.procs proc).status then done k else insert_behind k.ready_queue_head proc k

-- Where a hart is after a pass of schedule(): in user mode in a process, shut down, parked for
-- good (`while (1) wfi`), or waiting for an interrupt before the next pass of the outer loop.
pub data Where : Type 0 where
  user : ℕ → Where
  shut_down : Where
  parked : Where
  retry : Where

unfoldable pub all_process_done_from : ℕ → (ℕ → Process) → Bool
all_process_done_from zero f = true
all_process_done_from (suc n) f = is_gone (f n).status && all_process_done_from n f

unfoldable pub all_process_done : Kernel → Bool
unfolding all_process_done_from
all_process_done k = all_process_done_from nproc k.procs

take_head : Option ℕ → ℕ → Kernel → Where × Kernel
take_head none tp k =
    (if all_process_done k then (if tp == 0 then shut_down else parked) else retry, k)
take_head (some p) tp k =
    let v = k.procs p in
    (
      user p,
      record k {
        current = update k.current tp (some p);
        ready_queue_head = v.queue_next;
        procs = update k.procs p (record v { queue_next = none; status = Status.running });
      },
    )

-- One pass of the loop of schedule() on hart `tp`, with the switch_to() that ends it.
unfoldable pub schedule : ℕ → Kernel → Where × Kernel
unfolding take_head all_process_done
schedule tp k = take_head k.ready_queue_head tp k

-- the wake-up of a parent that is BLOCKED, whatever it is blocked on
unfoldable pub wake_parent : Option ℕ → Kernel → Run Kernel (Unit {0})
wake_parent none k = done k
wake_parent (some q) k =
    if is_blocked (k.procs q).status
    then insert_to_ready_queue q (set_status k q Status.ready)
    else done k

-- schedule() as the last call of a handler: it does not come back
abbrev pub then_schedule : ℕ → Run Kernel (Unit {0}) → Run Kernel Where
then_schedule tp r = and_then r (λ _ k. ok (schedule tp k).0 (schedule tp k).1)

-- A process that ends becomes a ZOMBIE and wakes its parent.
unfoldable pub exit_current : Option ℕ → ℕ → Kernel → Run Kernel Where
exit_current none tp k = fault
exit_current (some self) tp k =
    then_schedule tp (wake_parent (k.procs self).parent (free_process k self))

-- The message and the code are only printed.
unfoldable pub kill_current_process : ℕ → Kernel → Run Kernel Where
unfolding exit_current
kill_current_process tp k = exit_current (k.current tp) tp k

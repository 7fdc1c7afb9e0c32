-- ===== src/Kernel/Process.antt =====
-- The process table of kernel/process.h and process.c, and the state that the scheduler and the
-- semaphores share. A `process *` is the index of its slot in procs[], NULL is `none`; slot i
-- has pid i from init_proc_pool on.
use mathlib.Core.Path.{fun_ext}
use huster_experiment_pke.Base.{
  ℕ, Bool, true, false, Option, none, some, ◌≡◌, ap, inl, inr, Bool-cases, ◌==◌, if◌then◌else◌,
}
use huster_experiment_pke.Base.Int.{ℤ, pos}

abbrev pub nproc : ℕ
nproc = 32

abbrev pub nsem : ℕ
nsem = 32

pub data Status : Type 0 where
  free ready running blocked zombie : Status

abbrev pub is_zombie : Status → Bool
is_zombie Status.zombie = true
is_zombie _ = false

abbrev pub is_blocked : Status → Bool
is_blocked Status.blocked = true
is_blocked _ = false

-- FREE or ZOMBIE
abbrev pub is_gone : Status → Bool
is_gone Status.free = true
is_gone Status.zombie = true
is_gone _ = false

-- the fields of process_t that scheduling reads; `a0` is trapframe->regs.a0
pub record Process : Type 0 where
  pub status : Status
  pub parent : Option ℕ
  pub queue_next : Option ℕ
  pub tick_count : ℕ
  pub a0 : ℤ

pub record Semaphore : Type 0 where
  pub ifuse : Bool
  pub value : ℤ
  pub wait_queue : Option ℕ

pub record Kernel : Type 0 where
  pub procs : ℕ → Process
  pub ready_queue_head : Option ℕ
  pub sem_table : ℕ → Semaphore
  pub current : ℕ → Option ℕ

module _ {ℓ} {A : Type ℓ} where
  abbrev pub update : (ℕ → A) → ℕ → A → ℕ → A
  update f i v j = if j == i then v else f j

abbrev pub set_proc : Kernel → ℕ → Process → Kernel
set_proc k p v = record k { procs = update k.procs p v }

abbrev pub set_status : Kernel → ℕ → Status → Kernel
set_status k p s = set_proc k p (record (k.procs p) { status = s })

abbrev pub set_next : Kernel → ℕ → Option ℕ → Kernel
set_next k p n = set_proc k p (record (k.procs p) { queue_next = n })

abbrev pub set_sem : Kernel → ℕ → Semaphore → Kernel
set_sem k i v = record k { sem_table = update k.sem_table i v }

abbrev pub set_current : Kernel → ℕ → Option ℕ → Kernel
set_current k tp p = record k { current = update k.current tp p }

-- every slot is FREE and every semaphore unused
unfoldable pub init_proc_pool : (ℕ → Option ℕ) → Kernel
init_proc_pool harts = record {
  procs = λ _. record {
    status = Status.free;
    parent = none;
    queue_next = none;
    tick_count = 0;
    a0 = pos 0;
  };
  ready_queue_head = none;
  sem_table = λ _. record { ifuse = false; value = pos 0; wait_queue = none };
  current = harts;
}

-- free_process only marks the slot: the pages and the slot itself are never given back
unfoldable pub free_process : Kernel → ℕ → Kernel
free_process k p = set_status k p Status.zombie

abbrev pub same_process : Option ℕ → ℕ → Bool
same_process none q = false
same_process (some p) q = p == q

-- of two writes at one index the second one stays
pub update-update {ℓ} :
    {A : Type ℓ} (f : ℕ → A) (i : ℕ) (a b : A) → update (update f i a) i b ≡ update f i b
update-update f i a b = fun_ext (λ j. elim (Bool-cases (j == i)) [ inl e ↦ rw e | inr e ↦ rw e ])

pub set_proc-set_proc :
    (k : Kernel) (p : ℕ) (a b : Process) → set_proc (set_proc k p a) p b ≡ set_proc k p b
set_proc-set_proc k p a b =
    ap (λ (f : ℕ → Process). record k { procs = f }) (update-update k.procs p a b)

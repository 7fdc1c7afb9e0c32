-- ===== src/Kernel/Example.antt =====
-- A concrete kernel for the tests: processes 0 and 1 are READY in that order, 2, 6 and 8 run on the
-- harts 0, 1 and 2, 3 and 4 wait on semaphore 0, 5 is BLOCKED in wait and 7 is a ZOMBIE child of 2.
use native.Mathlib.Decide.{ℕ_discrete}
use huster_experiment_pke.Base.{
  ℕ, zero, suc, ◌≡◌, List, [], ◌∷◌, Option, none, some, true, false, refl, sym, ◌∙◌, inl, inr,
  arith, ◌∈◌, ◌==◌, if◌then◌else◌,
}
use huster_experiment_pke.Base.Int.{pos, negsuc}
use huster_experiment_pke.Kernel.Process.{Status, Process, Semaphore, Kernel}
use huster_experiment_pke.Kernel.Sched.Laws.{IsReady}
use huster_experiment_pke.Kernel.Semaphore.Synced.{Synced, Waits}
use huster_experiment_pke.Kernel.Lifecycle.Laws.{Runs}

abbrev process : Status → Option ℕ → Option ℕ → Process
process s q p = record { status = s; parent = p; queue_next = q; tick_count = 1; a0 = pos 0 }

module _ {ℓ} {A : Type ℓ} where
  -- the entry of a table, and `d` behind its end
  abbrev pub entry : A → List A → ℕ → A
  entry d [] i = d
  entry d (x ∷ xs) zero = x
  entry d (x ∷ xs) (suc i) = entry d xs i

abbrev slots : List Process
slots =
    process Status.ready (some 1) none
    ∷ process Status.ready none none
    ∷ process Status.running none none
    ∷ process Status.blocked (some 4) none
    ∷ process Status.blocked none none
    ∷ process Status.blocked none none
    ∷ process Status.running none (some 5)
    ∷ process Status.zombie none (some 2)
    ∷ process Status.running none (some 3)
    ∷ []

abbrev slot : ℕ → Process
slot = entry (process Status.free none none) slots

abbrev sems : ℕ → Semaphore
sems i =
    if i == 0
    then record { ifuse = true; value = negsuc 1; wait_queue = some 3 }
    else record { ifuse = true; value = pos 1; wait_queue = none }

abbrev harts : ℕ → Option ℕ
harts = entry none (some 2 ∷ some 6 ∷ some 8 ∷ [])

abbrev pub scene : Kernel
scene = record { procs = slot; ready_queue_head = some 0; sem_table = sems; current = harts }

abbrev pub queue : List ℕ
queue = 0 ∷ 1 ∷ []

abbrev pub waiting : ℕ → List ℕ
waiting i = if i == 0 then 3 ∷ 4 ∷ [] else []

pub scene-IsReady : IsReady scene queue
scene-IsReady = record {
  linked = (refl, (refl, refl));
  distinct = (refl, (refl, tt));
  slots = (omega arith, (omega arith, tt));
  status = (refl, (refl, tt));
}

each : (i : ℕ) → Waits slot (sems i) (waiting i)
each i = elim (ℕ_discrete i 0) [
  | yes e ↦
      let test : (i == 0) ≡ true = ground arith in
      rw test (record {
        linked = (refl, (refl, refl));
        distinct = (refl, (refl, tt));
        slots = (omega arith, (omega arith, tt));
        status = (refl, (refl, tt));
        idle = inr (ground arith);
      })
  | no ne ↦
      let test : (i == 0) ≡ false = ground arith in
      rw test (record { linked = refl; distinct = tt; slots = tt; status = tt; idle = inl refl })
]

only : (i a : ℕ) → a ∈ waiting i → i ≡ 0
only i a m = ground arith

pub scene-Synced : Synced scene queue waiting
scene-Synced = record {
  ready = scene-IsReady;
  waits = each;
  apart = λ i j a p q. only i a p ∙ sym (only j a q);
}

pub hart_0 : Runs scene 0 2
hart_0 = record { current = refl; slot = omega arith; status = refl }

pub hart_1 : Runs scene 1 6
hart_1 = record { current = refl; slot = omega arith; status = refl }

pub hart_2 : Runs scene 2 8
hart_2 = record { current = refl; slot = omega arith; status = refl }

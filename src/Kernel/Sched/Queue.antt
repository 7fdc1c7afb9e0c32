-- ===== src/Kernel/Sched/Queue.antt =====
-- Queues of processes linked through `queue_next`, as lists of slots.
use huster_experiment_pke.Base.{
  ℕ, zero, suc, ◌<◌, List, [], ◌∷◌, ◌++◌, Option, none, some, ◌≡◌, ◌≢◌, arith, length, ◌∈◌, ◌∉◌,
  Distinct,
}
use huster_experiment_pke.Kernel.Process.{Process}
use huster_experiment_pke.Kernel.Sched.{queued, tail, find_tail}

-- from the pointer `h` the `queue_next` fields lead through `xs` to NULL
abbrev pub Queue : (ℕ → Process) → Option ℕ → List ℕ → Type 0
Queue f h [] = h ≡ none
Queue f h (x ∷ xs) = (h ≡ some x) × Queue f (f x).queue_next xs

-- a queue depends on the links of its members only
pub Queue-frame :
    (f g : ℕ → Process) (h : Option ℕ) (xs : List ℕ)
    → ((a : ℕ) → a ∈ xs → (g a).queue_next ≡ (f a).queue_next)
    → Queue f h xs
    → Queue g h xs
Queue-frame f g h [] same q = q
Queue-frame f g h (x ∷ xs) same q = (
  q.0,
  rw (same x (ground arith))
      (Queue-frame f g (f x).queue_next xs (λ a i. same a (ground arith)) q.1),
)

abbrev pub last : ℕ → List ℕ → ℕ
last x [] = x
last x (y ∷ ys) = last y ys

pub last-mem : (x : ℕ) (xs : List ℕ) → last x xs ∈ x ∷ xs
last-mem x [] = ground arith
last-mem x (y ∷ ys) = ground (arith, last-mem y ys)

-- the walk ends at the last member when `proc` is none of them
pub find_tail-last :
    (n : ℕ) (f : ℕ → Process) (p proc : ℕ) (xs : List ℕ)
    → Queue f (f p).queue_next xs
    → proc ∉ p ∷ xs
    → length xs < n
    → find_tail n f p proc ≡ tail (last p xs)
unfolding find_tail
find_tail-last zero f p proc xs q out fuel = absurd (omega arith)
find_tail-last (suc n) f p proc [] q out fuel = ground arith
find_tail-last (suc n) f p proc (x ∷ xs) q out fuel = ground (arith, find_tail-last n f x proc xs)

pub find_tail-queued :
    (n : ℕ) (f : ℕ → Process) (p proc : ℕ) (xs : List ℕ)
    → Queue f (f p).queue_next xs
    → proc ∈ p ∷ xs
    → length xs < n
    → find_tail n f p proc ≡ queued
unfolding find_tail
find_tail-queued zero f p proc xs q i fuel = absurd (omega arith)
find_tail-queued (suc n) f p proc [] q i fuel = ground arith
find_tail-queued (suc n) f p proc (x ∷ xs) q i fuel = ground (arith, find_tail-queued n f x proc xs)

-- linking `y` behind the last member
pub Queue-snoc :
    (f g : ℕ → Process) (h : Option ℕ) (x y : ℕ) (xs : List ℕ)
    → Queue f h (x ∷ xs)
    → Distinct (x ∷ xs)
    → ((a : ℕ) → a ∈ x ∷ xs → a ≢ last x xs → (g a).queue_next ≡ (f a).queue_next)
    → (g (last x xs)).queue_next ≡ some y
    → (g y).queue_next ≡ none
    → Queue g h (x ∷ (xs ++ (y ∷ [])))
Queue-snoc f g h x y [] q d same l e = (q.0, (l, e))
Queue-snoc f g h x y (z ∷ zs) q d same l e = (
  q.0,
  rw (same x (ground arith) (ground (arith, last-mem z zs)))
      (Queue-snoc f g (f x).queue_next z y zs q.1 d.1 (λ a i. same a (ground arith)) l e),
)

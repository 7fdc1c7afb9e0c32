-- ===== src/Kernel/Heap/Free.antt =====
-- user_better_free gives the block up, and keeps the blocks of the heap apart.
use huster_experiment_pke.Base.{
  ℕ, zero, suc, ◌+◌, ◌/◌, ◌≡◌, ◌≢◌, refl, ◌∙◌, Bool, true, false, ltb, List, [], ◌∷◌, All, Option,
  Bool-cases, inl, inr,
}
use huster_experiment_pke.Base.Run.{Run, ok, killed, panic, fault}
use huster_experiment_pke.Base.Word.{u64, round_down}
use huster_experiment_pke.Kernel.Vmm.{user_vm_unmap}
use huster_experiment_pke.Kernel.Heap.{
  Block, Heap, Fit, find_used, page_has_other_allocation, unmap_unless, unmap_unused, free_by,
  user_better_free, push_free,
}
use huster_experiment_pke.Kernel.Heap.Blocks.{
  Apart, Below, IsHeap, Quiet, returns, kills, panics, faults, on_pmm-Quiet, then_quiet, Removed,
  Removed-All, Removed-AllApart, All-Apart-sym, First, Found, nothing, got, find_used-Found,
}
use huster_experiment_pke.Kernel.Heap.Loose.{SameBlocks-IsHeap, push_free-IsHeap, Loose}

unmap_unless-Quiet : (used : Bool) (va : ℕ) (h : Heap) → Quiet h (unmap_unless used va h)
unmap_unless-Quiet true va h = returns tt h (record { top = refl; used = refl; unused = refl })
unmap_unless-Quiet false va h = on_pmm-Quiet (user_vm_unmap h.pagetable va 4096 true) h

unmap_unused-Quiet : (fuel va end : ℕ) (h : Heap) → Quiet h (unmap_unused fuel va end h)
unfolding unmap_unused
unmap_unused-Quiet zero va end h = faults
unmap_unused-Quiet (suc fuel) va end h = elim (Bool-cases (ltb va end)) [
  | inr stop ↦
      rw (stop, unmap_unused) (returns tt h (record { top = refl; used = refl; unused = refl }))
  | inl more ↦
      let used = page_has_other_allocation va h.malloc_list in
      rw (more, unmap_unused)
        (then_quiet h _ (unmap_unless used va h) (unmap_unless-Quiet used va h)
          (λ u h'. unmap_unused-Quiet fuel (u64 (va + 4096)) end h'))
]

-- The outcomes of a free of `va`: the first used block at `va`, with none at `va` in front of it, becomes
-- the first free one, and all blocks are apart; or no used block is at `va`, and nothing
-- changes. The unmapping of the pages of a used block can also end otherwise.
pub data Freed (h : Heap) (va : ℕ) : Run Heap (Unit {0}) → Type 0 where
  given_up :
      (b : Block) (others : List Block) (h' : Heap)
      → b.va ≡ va
      → First (λ c. c.va ≡ va) b h.malloc_list
      → Removed b others h.malloc_list
      → IsHeap h'
      → h'.malloc_list ≡ others
      → h'.malloc_free_list ≡ b ∷ h.malloc_free_list
      → Freed h va (ok tt h')
  unknown : All (λ c. c.va ≢ va) h.malloc_list → Freed h va (ok tt h)
  dies : (b : Block) (h' : Heap) → First (λ c. c.va ≡ va) b h.malloc_list → Freed h va (killed h')
  stops : (b : Block) → First (λ c. c.va ≡ va) b h.malloc_list → Freed h va panic
  breaks : (b : Block) → First (λ c. c.va ≡ va) b h.malloc_list → Freed h va fault

-- the block off the used list, and the rest of the heap
abbrev pub used_without : Heap → List Block → Heap
used_without h os = record h { malloc_list = os }

Removed-free :
    (b : Block) (os used xs : List Block)
    → Removed b os used
    → All (λ c. All (Apart c) used) xs
    → All (λ c. All (Apart c) os) xs × All (λ c. Apart c b) xs
Removed-free b os used [] r all = (tt, tt)
Removed-free b os used (x ∷ xs) r all =
    let (one, others) = Removed-All (Apart x) r all.0 in
    let (rest, ones) = Removed-free b os used xs r all.1 in ((others, rest), (one, ones))

Removed-used :
    (h : Heap) {b : Block} {os : List Block}
    → IsHeap h
    → Removed b os h.malloc_list
    → IsHeap (used_without h os) × Loose b (used_without h os)
Removed-used h {b} {os} v r =
    let (with_used, used) = Removed-AllApart r v.used in
    let (apart, from_b) = Removed-free b os h.malloc_list h.malloc_free_list r v.apart in
    let (below, used_below) = Removed-All (Below h.heap_top) r v.used_below in
    (
      record {
        used = used;
        unused = v.unused;
        apart = apart;
        used_below = used_below;
        unused_below = v.unused_below;
      },
      record {
        with_used = with_used;
        with_unused = All-Apart-sym b h.malloc_free_list from_b;
        below = below;
      },
    )

finish :
    (h h₀ : Heap) (va : ℕ) (b : Block) (os : List Block) (r : Run Heap (Unit {0}))
    → b.va ≡ va
    → First (λ c. c.va ≡ va) b h.malloc_list
    → Removed b os h.malloc_list
    → IsHeap h₀
    → h₀.malloc_list ≡ os
    → h₀.malloc_free_list ≡ b ∷ h.malloc_free_list
    → Quiet h₀ r
    → Freed h va r
finish h h₀ va b os _ at one rem v e f (returns u h' s) =
    given_up b os h' at one rem (SameBlocks-IsHeap s v) (s.used ∙ e) (s.unused ∙ f)
finish h h₀ va b os _ at one rem v e f (kills h' s) = dies b h' one
finish h h₀ va b os _ at one rem v e f panics = stops b one
finish h h₀ va b os _ at one rem v e f faults = breaks b one

by_block :
    (va : ℕ) (h : Heap) (o : Option Fit)
    → Found (λ b. b.va ≡ va) h.malloc_list o
    → IsHeap h
    → Freed h va (free_by o h)
unfolding free_by
by_block va h _ (nothing all) v = unknown all
by_block va h _ (got f r at one) v =
    let (v', l) = Removed-used h v r in
    let h₀ = push_free f.block (used_without h f.others) in
    let fuel = f.block.size / 4096 + 3 in
    let end = u64 (f.block.va + f.block.size) in
    finish h h₀ va f.block f.others (unmap_unused fuel (round_down f.block.va) end h₀) at one r
      (push_free-IsHeap f.block (used_without h f.others) v' l) refl refl
      (unmap_unused-Quiet fuel (round_down f.block.va) end h₀)

-- user_better_free at an address of no used block returns and changes nothing. At the address of a used
-- block, where the unmapping of its pages returns, it has moved the first used block at the address to
-- the front of the free blocks, and all blocks are apart and below the heap's top.
pub user_better_free-IsHeap : (va : ℕ) (h : Heap) → IsHeap h → Freed h va (user_better_free va h)
unfolding user_better_free
user_better_free-IsHeap va h v =
    by_block va h (find_used va h.malloc_list) (find_used-Found va h.malloc_list) v

-- ===== src/Kernel/Heap/Tests.antt =====
-- The heap's theorems, on a process with one block in the memory of Kernel/Vmm/Example.
use huster_experiment_pke.Base.{◌+◌, ◌-◌, ◌^◌, ◌<◌, ◌≡◌, ◌≢◌, refl, arith, List, [], ◌∷◌, inr}
use huster_experiment_pke.Base.Run.{ok}
use huster_experiment_pke.Base.Word.{round_down}
use huster_experiment_pke.Kernel.Pmm.Laws.{taken}
use huster_experiment_pke.Kernel.Vmm.Example.{root, pages, space}
use huster_experiment_pke.Kernel.Vmm.Table.{entry_of}
use huster_experiment_pke.Kernel.Vmm.Leaf.{resolved}
use huster_experiment_pke.Kernel.Heap.{Block, Heap, user_better_malloc, user_better_free}
use huster_experiment_pke.Kernel.Heap.Blocks.{IsHeap}
use huster_experiment_pke.Kernel.Heap.Malloc.{Malloced, user_better_malloc-IsHeap}
use huster_experiment_pke.Kernel.Heap.Top.{user_better_malloc_fits, user_better_malloc_wraps}
use huster_experiment_pke.Kernel.Heap.Free.{Freed, user_better_free-IsHeap}

abbrev used_block : Block
used_block = record { page = 0x80017000; va = 0x400000; size = 16 }

abbrev free_block : Block
free_block = record { page = 0x80018000; va = 0x400010; size = 32 }

-- `frees` are the freed blocks
abbrev process : List Block → Heap
process frees = record {
  pmm = pages 2;
  pagetable = root;
  heap_top = 0x400030;
  malloc_list = used_block ∷ [];
  malloc_free_list = frees;
}

process-IsHeap : IsHeap (process (free_block ∷ []))
process-IsHeap = record {
  used = (tt, tt);
  unused = (tt, tt);
  apart = ((inr (omega arith), tt), tt);
  used_below = (omega arith, tt);
  unused_below = (omega arith, tt);
}

-- the freed block is split
user_better_malloc-IsHeap_example :
    Malloced (used_block ∷ []) 24 (user_better_malloc 24 (process (free_block ∷ [])))
user_better_malloc-IsHeap_example =
    user_better_malloc-IsHeap 24 (process (free_block ∷ [])) process-IsHeap (omega arith)

user_better_free-IsHeap_example :
    Freed
      (process (free_block ∷ []))
      0x400000
      (user_better_free 0x400000 (process (free_block ∷ [])))
user_better_free-IsHeap_example =
    user_better_free-IsHeap 0x400000 (process (free_block ∷ [])) process-IsHeap

mapped : resolved (entry_of 2 (pages 2).mem root (round_down 0x400030)) ≢ 0
unfolding entry_of round_down
mapped = ground arith

user_better_malloc_fits_example :
    (h' : Heap) × (user_better_malloc 100 (process []) ≡ ok 0x400030 h')
    × (h'.heap_top ≡ 0x400030 + 100)
    × (h'.malloc_list ≡ record { page = 0x80014000; va = 0x400030; size = 100 } ∷ used_block ∷ [])
    × (h'.malloc_free_list ≡ [])
    × (h'.pmm ≡ taken (pages 2) 0x80014000)
    × (h'.pagetable ≡ root)
user_better_malloc_fits_example =
    user_better_malloc_fits (process []) 0x80014000 (0x80015000 ∷ 0x80016000 ∷ []) 100
      (space 2).frames refl (omega arith) (omega arith) mapped (omega arith)

-- malloc(-1)
user_better_malloc_wraps_example :
    (h' : Heap) × (user_better_malloc (2 ^ 64 - 1) (process []) ≡ ok 0x400030 h')
    × (h'.heap_top < 0x400030)
    × (h'.heap_top + 2 ^ 64 ≡ 0x400030 + (2 ^ 64 - 1))
    × (h'.malloc_list
        ≡ record { page = 0x80014000; va = 0x400030; size = 2 ^ 64 - 1 } ∷ used_block ∷ [])
    × (h'.malloc_free_list ≡ [])
    × (h'.pmm ≡ taken (pages 2) 0x80014000)
    × (h'.pagetable ≡ root)
user_better_malloc_wraps_example =
    user_better_malloc_wraps (process []) 0x80014000 (0x80015000 ∷ 0x80016000 ∷ []) (2 ^ 64 - 1)
      (space 2).frames refl (omega arith) (omega arith) mapped (omega arith) (omega arith)
      (omega arith) (omega arith)

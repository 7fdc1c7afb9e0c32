-- ===== src/Kernel/Heap/Malloc.antt =====
-- Whatever user_better_malloc meets, it keeps the blocks of the heap apart.
use huster_experiment_pke.Base.{
  ℕ, ◌+◌, ◌-◌, ◌/◌, ◌^◌, ◌≤◌, ◌<◌, ◌≡◌, refl, ◌∙◌, ap, Bool, true, false, arith, ltb, leb, ◌==◌,
  List, [], ◌∷◌, Option, none, some, Bool-cases, inl, inr,
}
use huster_experiment_pke.Base.Run.{Run, ok, killed, panic, fault, Cmd, and_then}
use huster_experiment_pke.Base.Word.{u64, u64_mod, round_down}
use huster_experiment_pke.Kernel.Pmm.{alloc_page, free_page}
use huster_experiment_pke.Kernel.Vmm.{lookup_pa}
use huster_experiment_pke.Kernel.Heap.{
  Block, Heap, Fit, on_pmm, find_fit, map_missing, pop_node, split_block, take_block, reuse_block,
  give_back, unmap_pages, map_more, bump, after_more, grow_heap, first_page_done, with_node, extend,
  malloc_by, user_better_malloc, push_free, push_used, if_unmapped, unmap_first,
}
use huster_experiment_pke.Kernel.Heap.Blocks.{
  IsHeap, SameBlocks, Quiet, returns, kills, panics, faults, on_pmm-Quiet, if_unmapped-Quiet,
  map_missing-Quiet, map_more-Quiet, unmap_pages-Quiet, unmap_first-Quiet, Removed, first, Found,
  nothing, got, find_fit-Found,
}
use huster_experiment_pke.Kernel.Heap.Loose.{
  Loose, SameBlocks-IsHeap, SameBlocks-Loose, push_free-IsHeap, push_used-IsHeap, Loose-Inside,
  without, Removed-Loose, bump-IsHeap,
}

-- The outcomes of a malloc of `size` bytes, from the list of used blocks before: a block of that size at
-- the address returned joins the used ones, or NULL is returned and they stay. In both cases all blocks
-- are apart again.
pub data Malloced (used : List Block) (size : ℕ) : Run Heap ℕ → Type 0 where
  block :
      (b : Block) (h' : Heap)
      → IsHeap h'
      → h'.malloc_list ≡ b ∷ used
      → b.size ≡ size
      → Malloced used size (ok b.va h')
  refused : (h' : Heap) → IsHeap h' → h'.malloc_list ≡ used → Malloced used size (ok 0 h')
  dies : (h' : Heap) → Malloced used size (killed h')
  stops : Malloced used size panic
  breaks : Malloced used size fault

-- a quiet step in front
quietly :
    {A : Type 0} (used : List Block) (size : ℕ) (h : Heap) (k : A → Cmd Heap ℕ) (r : Run Heap A)
    → Quiet h r
    → ((a : A) (h' : Heap) → SameBlocks h h' → Malloced used size (k a h'))
    → Malloced used size (and_then r k)
quietly used size h k _ (returns a h' e) next = next a h' e
quietly used size h k _ (kills h' e) next = dies h'
quietly used size h k _ panics next = stops
quietly used size h k _ faults next = breaks

put_back :
    (used : List Block) (size : ℕ) (b : Block) (h : Heap)
    → IsHeap h
    → Loose b h
    → h.malloc_list ≡ used
    → Malloced used size (ok 0 (push_free b h))
put_back used size b h v l e = refused (push_free b h) (push_free-IsHeap b h v l) e

split_block-Malloced :
    (used : List Block) (size rem : ℕ) (b : Block) (h : Heap)
    → IsHeap h
    → Loose b h
    → h.malloc_list ≡ used
    → size < b.size
    → h.heap_top < 2 ^ 64
    → Malloced used size (split_block b size rem h)
unfolding split_block
split_block-Malloced used size rem b h v l e lt top = elim (Bool-cases (rem == 0)) [
  | inl none_left ↦ rw none_left (put_back used size b h v l e)
  | inr page ↦
      let c : Block = record { page = rem; va = u64 (b.va + size); size = b.size - size } in
      let a : Block = record b { size = size } in
      let start : u64 (b.va + size) ≡ b.va + size = omega (arith, l.below) in
      let lc : Loose c h = Loose-Inside c b h (omega arith, omega arith) l in
      let la : Loose a h = Loose-Inside a b h (omega arith, omega arith) l in
      let la' : Loose a (push_free c h) = record {
        with_used = la.with_used;
        with_unused = (inl (omega arith), la.with_unused);
        below = la.below;
      } in
      rw page (
        block a (push_used a (push_free c h))
          (push_used-IsHeap a (push_free c h) (push_free-IsHeap c h v lc) la')
          (ap (λ (xs : List Block). a ∷ xs) e) refl)
]

-- a node from the free list, or from a page
take_node :
    (used : List Block) (size : ℕ) (b : Block) (h : Heap) (xs : List Block)
    → IsHeap h
    → Loose b h
    → h.malloc_list ≡ used
    → h.malloc_free_list ≡ xs
    → size < b.size
    → h.heap_top < 2 ^ 64
    → Malloced used size (and_then (pop_node xs h) (split_block b size))
take_node used size b h [] v l e f lt top =
    quietly used size h (split_block b size) (on_pmm alloc_page h) (on_pmm-Quiet alloc_page h)
      (λ rem h' s.
        split_block-Malloced used size rem b h' (SameBlocks-IsHeap s v) (SameBlocks-Loose b s l)
          (s.used ∙ e) lt (rw s.top top))
take_node used size b h (c ∷ cs) v l e f lt top =
    let r : Removed c cs h.malloc_free_list = rw f (first cs) in
    let (v', _) = Removed-Loose h v r in
    let l' : Loose b (without h cs) = record {
      with_used = l.with_used;
      with_unused = (rw f at l.with_unused).1;
      below = l.below;
    } in
    split_block-Malloced used size c.page b (without h cs) v' l' e lt top

take_block-Malloced :
    (used : List Block) (size : ℕ) (b : Block) (fine : Bool) (h : Heap)
    → IsHeap h
    → Loose b h
    → h.malloc_list ≡ used
    → size ≤ b.size
    → h.heap_top < 2 ^ 64
    → Malloced used size (take_block b size fine h)
unfolding take_block
take_block-Malloced used size b false h v l e le top = put_back used size b h v l e
take_block-Malloced used size b true h v l e le top = elim (Bool-cases (ltb size b.size)) [
  | inl larger ↦
      rw larger (take_node used size b h h.malloc_free_list v l e refl (ground arith) top)
  | inr exact ↦ rw exact (
      block b (push_used b h) (push_used-IsHeap b h v l) (ap (λ (xs : List Block). b ∷ xs) e)
        (ground arith))
]

reuse_block-Malloced :
    (size : ℕ) (f : Fit) (h : Heap)
    → IsHeap h
    → Removed f.block f.others h.malloc_free_list
    → size ≤ f.block.size
    → h.heap_top < 2 ^ 64
    → Malloced h.malloc_list size (reuse_block size f h)
unfolding reuse_block
reuse_block-Malloced size f h v r le top =
    let (v', l) = Removed-Loose h v r in
    let h₀ = without h f.others in
    let fuel = size / 4096 + 3 in
    let from = round_down f.block.va in
    let end = u64 (f.block.va + size) in
    quietly h.malloc_list size h₀ (take_block f.block size) (map_missing fuel from end h₀)
      (map_missing-Quiet fuel from end h₀)
      (λ fine h' s.
        take_block-Malloced h.malloc_list size f.block fine h' (SameBlocks-IsHeap s v')
          (SameBlocks-Loose f.block s l) s.used le (rw s.top top))

-- what give_back needs: the block that the node stood for can go back to the free list
abbrev Returnable : List Block → Heap → Type 0
Returnable [] h = Unit {0}
Returnable (b ∷ bs) h = Loose b h

SameBlocks-Returnable :
    (from : List Block) (h h' : Heap) → SameBlocks h h' → Returnable from h → Returnable from h'
SameBlocks-Returnable [] h h' s r = tt
SameBlocks-Returnable (b ∷ bs) h h' s r = SameBlocks-Loose b s r

give_back-Malloced :
    (used : List Block) (size node : ℕ) (from : List Block) (h : Heap)
    → IsHeap h
    → Returnable from h
    → h.malloc_list ≡ used
    → Malloced used size (give_back node from h)
unfolding give_back
give_back-Malloced used size node [] h v r e =
    quietly used size h (λ _ h'. ok 0 h') (on_pmm (free_page node) h)
      (on_pmm-Quiet (free_page node) h) (λ u h' s. refused h' (SameBlocks-IsHeap s v) (s.used ∙ e))
give_back-Malloced used size node (b ∷ bs) h v r e = put_back used size b h v r e

bumped :
    (used : List Block) (size node va : ℕ) (h : Heap)
    → IsHeap h
    → h.heap_top ≡ va
    → va + size < 2 ^ 64
    → h.malloc_list ≡ used
    → Malloced used size (ok va (bump node va size h))
bumped used size node va h v top lt e =
    let b : Block = record { page = node; va = va; size = size } in
    block b (bump node va size h) (bump-IsHeap node va size h v top lt)
      (ap (λ (xs : List Block). b ∷ xs) e) refl

after_more-Malloced :
    (used : List Block) (size node va : ℕ) (from : List Block) (first_page : Bool) (o : Option ℕ)
    (h : Heap)
    → IsHeap h
    → Returnable from h
    → h.heap_top ≡ va
    → va + size < 2 ^ 64
    → h.malloc_list ≡ used
    → Malloced used size (after_more node from va size first_page o h)
unfolding after_more
after_more-Malloced used size node va from first_page none h v r top lt e =
    bumped used size node va h v top lt e
after_more-Malloced used size node va from first_page (some mapped) h v r top lt e =
    let unmap = unmap_first first_page (round_down va) in
    quietly used size h _ (unmap h) (unmap_first-Quiet first_page (round_down va) h) (λ u h₁ s₁.
      quietly used size h₁ _ (unmap_pages (round_down va + 4096) mapped h₁)
        (unmap_pages-Quiet (round_down va + 4096) mapped h₁)
        (λ u h₂ s₂.
          give_back-Malloced used size node from h₂ (SameBlocks-IsHeap s₂ (SameBlocks-IsHeap s₁ v))
            (SameBlocks-Returnable from h₁ h₂ s₂ (SameBlocks-Returnable from h h₁ s₁ r))
            (s₂.used ∙ s₁.used ∙ e)))

grow_heap-Malloced :
    (used : List Block) (size node va : ℕ) (from : List Block) (first_page : Bool) (h : Heap)
    → IsHeap h
    → Returnable from h
    → h.heap_top ≡ va
    → va + size < 2 ^ 64
    → h.malloc_list ≡ used
    → Malloced used size (grow_heap node from va size first_page h)
unfolding grow_heap
grow_heap-Malloced used size node va from first_page h v r top lt e =
    let remaining = u64 (round_down va + 4096 + u64_mod - va) in
    let n_pages = u64 (size + u64_mod - remaining + 4096 - 1) / 4096 in
    elim (Bool-cases (leb size remaining)) [
      | inl enough ↦ rw enough (bumped used size node va h v top lt e)
      | inr more ↦ rw more (
          quietly used size h (after_more node from va size first_page)
            (map_more n_pages 0 (round_down va + 4096) h)
            (map_more-Quiet n_pages 0 (round_down va + 4096) h)
            (λ o h' s.
              after_more-Malloced used size node va from first_page o h' (SameBlocks-IsHeap s v)
                (SameBlocks-Returnable from h h' s r) (s.top ∙ top) lt (s.used ∙ e)))
    ]

first_page_done-Malloced :
    (used : List Block) (size node va : ℕ) (from : List Block) (first_page fine : Bool) (h : Heap)
    → IsHeap h
    → Returnable from h
    → h.heap_top ≡ va
    → va + size < 2 ^ 64
    → h.malloc_list ≡ used
    → Malloced used size (first_page_done node from va size first_page fine h)
unfolding first_page_done
first_page_done-Malloced used size node va from first_page true h v r top lt e =
    grow_heap-Malloced used size node va from first_page h v r top lt e
first_page_done-Malloced used size node va from first_page false h v r top lt e =
    give_back-Malloced used size node from h v r e

with_node-Malloced :
    (used : List Block) (size node va : ℕ) (from : List Block) (h : Heap)
    → IsHeap h
    → Returnable from h
    → h.heap_top ≡ va
    → va + size < 2 ^ 64
    → h.malloc_list ≡ used
    → Malloced used size (with_node size from va node h)
unfolding with_node
with_node-Malloced used size node va from h v r top lt e = elim (Bool-cases (node == 0)) [
  | inl none_left ↦ rw none_left (refused h v e)
  | inr there ↦
      let look = lookup_pa h.pagetable (round_down va) in
      rw there (
        quietly used size h _ (on_pmm look h) (on_pmm-Quiet look h) (λ pa h₁ s₁.
          quietly used size h₁ _ (if_unmapped (round_down va) pa h₁)
            (if_unmapped-Quiet (round_down va) pa h₁)
            (λ fine h₂ s₂.
              first_page_done-Malloced used size node va from (pa == 0) fine h₂
                (SameBlocks-IsHeap s₂ (SameBlocks-IsHeap s₁ v))
                (SameBlocks-Returnable from h₁ h₂ s₂ (SameBlocks-Returnable from h h₁ s₁ r))
                (s₂.top ∙ s₁.top ∙ top) lt (s₂.used ∙ s₁.used ∙ e))))
]

extend-Malloced :
    (size : ℕ) (h : Heap) (xs : List Block)
    → IsHeap h
    → h.malloc_free_list ≡ xs
    → h.heap_top + size < 2 ^ 64
    → Malloced h.malloc_list size (and_then (pop_node xs h) (with_node size xs h.heap_top))
extend-Malloced size h [] v f lt =
    quietly h.malloc_list size h (with_node size [] h.heap_top) (on_pmm alloc_page h)
      (on_pmm-Quiet alloc_page h)
      (λ node h' s.
        with_node-Malloced h.malloc_list size node h.heap_top [] h' (SameBlocks-IsHeap s v) tt s.top
          lt s.used)
extend-Malloced size h (b ∷ bs) v f lt =
    let r : Removed b bs h.malloc_free_list = rw f (first bs) in
    let (v', l) = Removed-Loose h v r in
    with_node-Malloced h.malloc_list size b.page h.heap_top (b ∷ bs) (without h bs) v' l refl lt
      refl

by_fit :
    (size : ℕ) (h : Heap) (o : Option Fit)
    → Found (λ b. size ≤ b.size) h.malloc_free_list o
    → IsHeap h
    → h.heap_top + size < 2 ^ 64
    → Malloced h.malloc_list size (malloc_by size o h)
unfolding malloc_by extend
by_fit size h _ (nothing all) v lt = extend-Malloced size h h.malloc_free_list v refl lt
by_fit size h _ (got f r le i) v lt = reuse_block-Malloced size f h v r le (omega arith)

-- user_better_malloc, for a size that does not carry the heap's top over 2^64: whatever it meets, the
-- blocks in use and the free ones stay apart and below the heap's top; a block that it hands out has
-- the size asked for and joins the blocks in use, which are as before, and when it returns NULL they
-- are as before too.
pub user_better_malloc-IsHeap :
    (size : ℕ) (h : Heap)
    → IsHeap h
    → h.heap_top + size < 2 ^ 64
    → Malloced h.malloc_list size (user_better_malloc size h)
unfolding user_better_malloc
user_better_malloc-IsHeap size h v lt = elim (Bool-cases (size == 0)) [
  | inl zero_size ↦ rw zero_size (refused h v refl)
  | inr some_size ↦ rw some_size (
      by_fit size h (find_fit size h.malloc_free_list) (find_fit-Found size h.malloc_free_list) v
        lt)
]

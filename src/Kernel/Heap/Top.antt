-- ===== src/Kernel/Heap/Top.antt =====
-- malloc at the top of the heap, where the page of the top is mapped and no freed block is left.
use huster_experiment_pke.Base.{
  ℕ, ◌+◌, ◌-◌, ◌*◌, ◌/◌, ◌%◌, ◌^◌, ◌≤◌, ◌<◌, ◌≡◌, ◌≢◌, refl, ◌∙◌, true, false, arith, leb, ◌==◌,
  List, [], ◌∷◌,
}
use huster_experiment_pke.Base.Run.{ok}
use huster_experiment_pke.Base.Word.{u64, u64_mod, round_down}
use huster_experiment_pke.Kernel.Pmm.Chain.{IsValid}
use huster_experiment_pke.Kernel.Pmm.Laws.{taken, alloc_page-taken}
use huster_experiment_pke.Kernel.Vmm.Table.{entry_of}
use huster_experiment_pke.Kernel.Vmm.Leaf.{resolved, lookup_pa_reads}
use huster_experiment_pke.Kernel.Heap.{
  Heap, find_fit, map_more, bump, after_more, grow_heap, first_page_done, with_node, extend,
  malloc_by, user_better_malloc,
}

-- the bytes left in the page of the heap's top
abbrev pub room : ℕ → ℕ
room top = 4096 - top % 4096

module _ (h : Heap) (p : ℕ) (free : List ℕ) (size : ℕ) (v : IsValid h.pmm (p ∷ free))
    (no_node : h.malloc_free_list ≡ []) (some_size : 0 < size) (low : h.heap_top < 2 ^ 38)
    (mapped : resolved (entry_of 2 h.pmm.mem h.pagetable (round_down h.heap_top)) ≢ 0) where
  granted : Heap
  granted = record h { pmm = taken h.pmm p }

  -- the node is in the page at the front of the free list, and the first page is there
  to_grow_heap : user_better_malloc size h ≡ grow_heap p [] h.heap_top size false granted
  unfolding user_better_malloc malloc_by extend with_node first_page_done granted find_fit
      round_down
  to_grow_heap =
      let nonzero : (size == 0) ≡ false = ground arith in
      let page : (p == 0) ≡ false = ground (arith, v.chain.1) in
      let look =
        lookup_pa_reads h.pagetable (h.heap_top / 4096 * 4096) (taken h.pmm p) (omega arith) in
      let there : (resolved (entry_of 2 h.pmm.mem h.pagetable (h.heap_top / 4096 * 4096)) == 0)
          ≡ false =
        ground arith in
      rw (nonzero, no_node, alloc_page-taken h.pmm p free v, page, look, there) refl

  -- A block that fits into the rest of the page of the heap's top, where that page is mapped, no freed
  -- block is left and a page is free: malloc returns the old top, the top moves up by the size, the block
  -- joins the used ones in front, no freed block appears, and of physical memory only the page at the
  -- front of the free list is taken, for the node.
  pub user_better_malloc_fits :
      size ≤ room h.heap_top
      → (h' : Heap) × (user_better_malloc size h ≡ ok h.heap_top h')
        × (h'.heap_top ≡ h.heap_top + size)
        × (h'.malloc_list ≡ record { page = p; va = h.heap_top; size = size } ∷ h.malloc_list)
        × (h'.malloc_free_list ≡ [])
        × (h'.pmm ≡ taken h.pmm p)
        × (h'.pagetable ≡ h.pagetable)
  unfolding grow_heap granted round_down
  user_better_malloc_fits le =
      let rest : u64 (h.heap_top / 4096 * 4096 + 4096 + u64_mod - h.heap_top) ≡ room h.heap_top =
        omega arith in
      let enough : leb size (room h.heap_top) ≡ true = ground arith in
      (
        bump p h.heap_top size granted,
        to_grow_heap ∙ rw (rest, enough) refl,
        omega arith,
        refl,
        no_node,
        refl,
        refl,
      )

  -- A size so large that the number of pages wraps round, with the page of the heap's top mapped, no freed
  -- block left and a page free: malloc returns the old top as if the block were there and records it with
  -- the size asked for, no page is mapped for it, only the page for the node is taken, and the heap's top
  -- goes down, by 2^64 less the size.
  pub user_better_malloc_wraps :
      room h.heap_top < size
      → size < 2 ^ 64
      → 2 ^ 64 + room h.heap_top ≤ size + 4095
      → 4096 ≤ h.heap_top
      → (h' : Heap) × (user_better_malloc size h ≡ ok h.heap_top h')
        × (h'.heap_top < h.heap_top)
        × (h'.heap_top + 2 ^ 64 ≡ h.heap_top + size)
        × (h'.malloc_list ≡ record { page = p; va = h.heap_top; size = size } ∷ h.malloc_list)
        × (h'.malloc_free_list ≡ [])
        × (h'.pmm ≡ taken h.pmm p)
        × (h'.pagetable ≡ h.pagetable)
  unfolding grow_heap granted round_down map_more after_more
  user_better_malloc_wraps lt wide wrap high =
      let rest : u64 (h.heap_top / 4096 * 4096 + 4096 + u64_mod - h.heap_top) ≡ room h.heap_top =
        omega arith in
      let more : leb size (room h.heap_top) ≡ false = ground arith in
      let no_page : u64 (size + u64_mod - room h.heap_top + 4096 - 1) / 4096 ≡ 0 = omega arith in
      (
        bump p h.heap_top size granted,
        to_grow_heap ∙ rw (rest, more, no_page) refl,
        omega arith,
        omega arith,
        refl,
        no_node,
        refl,
        refl,
      )
